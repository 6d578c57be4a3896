-- ===== src/Net/Receive.antt =====
-- Project/NetLib/Session.cpp: DispatchReceive and WaitForPacketReceive, on the receive buffer. What a
-- packet does when it is handled is not here; the packets handled are kept as their bytes.
pub mod Dispatched
pub mod Frames
use network_omok.Base.{
  ℕ, zero, suc, ◌+◌, ◌-◌, ◌*◌, Bool, true, false, ◌&&◌, Option, none, some, List, [], ◌∷◌, ◌++◌,
  add32, sub32, ltb, leb, ◌==◌, if◌then◌else◌,
}
use network_omok.Net.Packet.{peek, poke, packet_buffer_size, packet_header_size}
use network_omok.Net.Ring.{RingBuffer, allocate_to_buffer, release_buffer}

pub record Receiver : Type 0 where
  pub buffer : RingBuffer
  pub received_packet_size : ℕ
  pub handled : List (List ℕ)

-- GetPacketLen of the packet at the read position: its first two bytes.
abbrev pub packet_len : Receiver → ℕ
packet_len s = s.buffer.memory s.buffer.read_pos + 256 * s.buffer.memory (suc s.buffer.read_pos)

-- One packet: PacketParsing, and its bytes are released.
pub take_packet : Receiver → Receiver
unfolding peek release_buffer
take_packet s = record {
  buffer = (release_buffer (packet_len s) s.buffer).1;
  received_packet_size = sub32 s.received_packet_size (packet_len s);
  handled = s.handled ++ (peek s.buffer.memory s.buffer.read_pos (packet_len s) ∷ []);
}

-- CopyToPacketBuffer is defined up to the size of a packet.
abbrev pub fits_packet : ℕ → Bool
fits_packet size = leb size (packet_header_size + packet_buffer_size)

-- `while (m_receivedPacketSize > 0)`, on fuel. `received_size` is that of the packet: at first the
-- bytes of this transfer, later all that are left. A packet of length 0 is handled for ever. When
-- ReleaseBuffer gives nullptr, the next packet is copied from there.
pub receive_loop : ℕ → ℕ → Receiver → Option Receiver
unfolding take_packet release_buffer
receive_loop zero received_size s = none
receive_loop (suc n) received_size s =
    let next = take_packet s in
    let rest = receive_loop n next.received_packet_size next in
    let copied : Option Receiver = elim (release_buffer (packet_len s) s.buffer).0 [
      | none ↦ if next.received_packet_size == 0 then rest else none
      | some at ↦ rest
    ] in
    if s.received_packet_size == 0
    then some s
    else (if fits_packet s.received_packet_size
        then (if leb packet_header_size received_size && leb (packet_len s) s.received_packet_size
            then copied
            else some s)
        else none)

-- What is left when all received bytes are handled: the whole buffer is released.
abbrev pub release_all : Receiver → Receiver
release_all s = record s { buffer = (release_buffer s.buffer.used_buffer_size s.buffer).1 }

-- The bytes of a packet that has not arrived completely. `release_buffer` gives the position behind
-- them, from which they are copied.
pub keep_rest : Receiver → Option Receiver
unfolding release_buffer allocate_to_buffer peek poke
keep_rest s =
    let n = s.received_packet_size in
    let (remain, b) = release_buffer n s.buffer in
    let c = (release_buffer (sub32 b.used_buffer_size n) b).1 in
    let (write, d) = allocate_to_buffer n c in
    elim remain [
      | none ↦ none
      | some from ↦ elim write [
        | none ↦ none
        | some to ↦
            some
              (record s { buffer = record d { memory = poke d.memory to (peek d.memory from n) } })
      ]
    ]

-- DispatchReceive up to the next WaitForPacketReceive, for a connected session.
pub dispatch_receive : ℕ → ℕ → Receiver → Option Receiver
unfolding receive_loop keep_rest
dispatch_receive fuel transferred s =
    let received : Receiver = record s {
      received_packet_size = add32 s.received_packet_size transferred;
    } in
    elim (receive_loop fuel transferred received) [
      | none ↦ none
      | some t ↦ if t.received_packet_size == 0 then some (release_all t) else keep_rest t
    ]

-- WaitForPacketReceive: the position at which WSARecv puts the next bytes.
unfoldable wait_for_packet_receive : Receiver → Option ℕ × Receiver
unfolding allocate_to_buffer
wait_for_packet_receive s =
    let (at, b) = allocate_to_buffer packet_buffer_size s.buffer in (at, record s { buffer = b })
