-- ===== src/Wire/Serve.antt =====
-- Project/NetLib/Session.cpp: DispatchReceive together with the handlers of
-- Project/DXServer/User.cpp, from the bytes of a transfer to the state of the server.
pub mod Run
use network_omok.Base.{
  ℕ, zero, suc, ◌&&◌, Option, none, some, List, [], ◌∷◌, ◌++◌, add32, leb, ◌==◌, if◌then◌else◌,
}
use network_omok.Net.Packet.{Packet, new_packet, copy_to_packet_buffer, packet_header_size}
use network_omok.Net.Packet.Framing.{packet_at}
use network_omok.Net.Ring.{release_buffer}
use network_omok.Net.Receive.{
  Receiver, packet_len, take_packet, fits_packet, release_all, keep_rest,
}
use network_omok.Server.{Address, Server}
use network_omok.Wire.{Database, handle_packet}

-- What the loop does behind PacketParsing: the bytes of the packet are released, and what is left is
-- copied from where ReleaseBuffer says, if there is any.
pub next_copy : Receiver → Packet → Option Packet
next_copy r q =
    let next = take_packet r in
    if next.received_packet_size == 0
    then some q
    else elim (release_buffer (packet_len r) r.buffer).0 [
      | none ↦ none
      | some at ↦
          some (copy_to_packet_buffer (packet_at r.buffer.memory at) next.received_packet_size q)
    ]

module _ (me : Address) (db : Database) where
  -- `while (m_receivedPacketSize > 0)`, on fuel, with the local packet. A complete header is in the
  -- copy as it is in the buffer, so the length is read there.
  pub serve : ℕ → ℕ → Receiver → Packet → Server → Option (Receiver × Server)
  unfolding handle_packet next_copy
  serve zero received_size r q s = none
  serve (suc n) received_size r q s =
      let next = take_packet r in
      let handled : Option (Receiver × Server) = elim (handle_packet me db q s) [
        | none ↦ none
        | some (done, t) ↦ elim (next_copy r q) [
          | none ↦ none
          | some p ↦ serve n next.received_packet_size next p t
        ]
      ] in
      if r.received_packet_size == 0
      then some (r, s)
      else (if leb packet_header_size received_size && leb (packet_len r) r.received_packet_size
          then handled
          else some (r, s))

  -- Session::DispatchReceive up to the next WaitForPacketReceive, for a connected session.
  pub serve_transfer : ℕ → ℕ → Receiver → Server → Option (Receiver × Server)
  unfolding serve
  serve_transfer fuel transferred r s =
      let size = add32 r.received_packet_size transferred in
      let received : Receiver = record r { received_packet_size = size } in
      let q =
        copy_to_packet_buffer (packet_at r.buffer.memory r.buffer.read_pos) size (new_packet 0) in
      let served : Option (Receiver × Server) = elim (serve fuel transferred received q s) [
        | none ↦ none
        | some (t, u) ↦
            if t.received_packet_size == 0
            then some (release_all t, u)
            else elim (keep_rest t) [ none ↦ none | some v ↦ some (v, u) ]
      ] in
      if fits_packet size then served else none
