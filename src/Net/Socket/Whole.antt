-- ===== src/Net/Socket/Whole.antt =====
-- SendPacket and RecvPacket of Project/CoreNetClientLib/NetWorkClient.cpp together, for a packet that
-- arrives as it is asked for.
use network_omok.Base.{
  ℕ, suc, ◌+◌, ◌-◌, ◌*◌, ◌≤◌, ◌≡◌, refl, Option, none, some, List, [], ◌∷◌, ◌++◌, ◌∙◌, ap, arith,
  length, sym, append_assoc, append-nil, ◌<◌,
}
use network_omok.Net.Packet.{poke, peek, packet_header_size, packet_buffer_size}
use network_omok.Net.Packet.Bytes.{Holds-poke, peek-Holds}
use network_omok.Net.Receive.Frames.{IsFrame, AllFrames}
use network_omok.Net.Socket.{
  NetWorkClient, take, drop, received, disconnected, recv_error, left_open, returned, socket_error,
  running, send_packet, recv_body, recv_packet_body, recv_process, recv_packet,
}
use network_omok.Net.Socket.Loops.{IsWorking, send_packet-returned}

-- Between two packets, and at first: nothing of the receive buffer is in use.
abbrev pub at_rest : (ℕ → ℕ) → List (List ℕ) → NetWorkClient
at_rest recv_buffer packet_pool = record {
  recv_buffer = recv_buffer;
  read_pos = 0;
  write_pos = 0;
  packet_pool = packet_pool;
}

module _ (recv : ℕ → ℕ → List ℕ) where
  -- A body that the first call gives as a whole, or an empty one.
  recv_body-whole :
      (body : List ℕ) (fuel call : ℕ) (data_field : ℕ → ℕ)
      → recv call (length body) ≡ body
      → (written : ℕ → ℕ) × (recv_body recv (length body) (suc fuel) call 0 data_field
          ≡ some (length body, written))
        × (peek written 0 (length body) ≡ body)
  unfolding recv_body peek
  recv_body-whole [] fuel call data_field whole = (data_field, refl, refl)
  recv_body-whole (b ∷ bs) fuel call data_field whole =
      let written = poke data_field 0 (b ∷ bs) in
      (
        written,
        ground (arith, whole),
        peek-Holds written 0 (b ∷ bs) (Holds-poke data_field 0 (b ∷ bs)),
      )

  recv_packet-whole :
      (packet buffer : ℕ → ℕ) (pool : List (List ℕ)) (a b c d : ℕ) (body : List ℕ) (fuel : ℕ)
      → a + 256 * b ≡ packet_header_size + length body
      → length body ≤ packet_buffer_size
      → recv 0 (length body) ≡ body
      → recv_packet recv (suc fuel) (some (a ∷ b ∷ c ∷ d ∷ [])) packet (at_rest buffer pool)
        ≡ received
            (length body + packet_header_size)
            (at_rest (poke buffer 0 (a ∷ b ∷ c ∷ d ∷ [])) (pool ++ ((a ∷ b ∷ c ∷ d ∷ body) ∷ [])))
  unfolding recv_packet recv_process recv_packet_body poke peek
  recv_packet-whole packet buffer pool a b c d body fuel len fits whole =
      let data_field : ℕ → ℕ = λ i. poke packet 0 (a ∷ b ∷ c ∷ d ∷ []) (packet_header_size + i) in
      let (written, ends, bytes) = recv_body-whole body fuel 0 data_field whole in
      let size : (a + 256 * b) - packet_header_size ≡ length body = omega arith in
      let ends_there = ap (λ n. recv_body recv n (suc fuel) 0 0 data_field) size ∙ ends in
      let bytes_there = ap (λ n. peek written 0 n) size ∙ bytes in
      ground (arith, len, fits, ends_there, bytes_there)

-- One client sends the packets with SendPacket, and another receives what is on the wire with
-- RecvPacket; every header and every body arrives as a whole. `none` stands for an end of one of the
-- two that is not a success.
unfoldable pub relay :
    (ℕ → ℕ → Option ℕ) → (ℕ → ℕ) → List (List ℕ) → NetWorkClient → Option NetWorkClient
relay send packet [] s = some s
relay send packet (msg ∷ msgs) s = elim (send_packet send msg (length msg)) [
  | socket_error wire ↦ none
  | running ↦ none
  | returned n wire ↦ elim (recv_packet (λ call n. drop 4 wire) 1 (some (take 4 wire)) packet s) [
    | received size t ↦ relay send packet msgs t
    | disconnected ↦ none
    | recv_error ↦ none
    | left_open ↦ none
  ]
]

-- The packets fit into a DEFAULT_PACKET.
abbrev pub AllFit : List (List ℕ) → Type 0
AllFit [] = Unit {0}
AllFit (f ∷ fs) = (length f ≤ packet_header_size + packet_buffer_size) × AllFit fs

IsFrame-positive : (f : List ℕ) → IsFrame f → 0 < length f
IsFrame-positive [] ok = absurd ok
IsFrame-positive (a ∷ bs) ok = omega arith

-- One packet of the relay.
received_whole :
    (f : List ℕ) (packet buffer : ℕ → ℕ) (pool : List (List ℕ))
    → IsFrame f
    → length f ≤ packet_header_size + packet_buffer_size
    → recv_packet (λ call n. drop 4 f) 1 (some (take 4 f)) packet (at_rest buffer pool)
      ≡ received (length f) (at_rest (poke buffer 0 (take 4 f)) (pool ++ (f ∷ [])))
unfolding take drop
received_whole [] packet buffer pool ok fits = absurd ok
received_whole (a ∷ []) packet buffer pool ok fits = absurd ok
received_whole (a ∷ b ∷ []) packet buffer pool ok fits = absurd (omega arith)
received_whole (a ∷ b ∷ c ∷ []) packet buffer pool ok fits = absurd (omega arith)
received_whole (a ∷ b ∷ c ∷ d ∷ body) packet buffer pool ok fits =
    recv_packet-whole (λ call n. body) packet buffer pool a b c d body 0 (ok.0 ∙ omega arith)
      (omega arith) refl
    ∙ ap
        (λ n.
          received n
            (at_rest (poke buffer 0 (a ∷ b ∷ c ∷ d ∷ [])) (pool ++ ((a ∷ b ∷ c ∷ d ∷ body) ∷ []))))
        (omega arith)

module _ (send : ℕ → ℕ → Option ℕ) (working : IsWorking send) (packet : ℕ → ℕ) where
  -- If every call of `send` that is given something takes some of it, then SendPacket ends for every
  -- packet that has its length in its header and fits into a DEFAULT_PACKET, in whatever pieces it
  -- goes, and a client at rest that receives the packets, each header and each body in one call, ends
  -- too, at rest, with exactly these packets behind those of its pool, in their order.
  pub relay-Pool :
      (msgs : List (List ℕ)) (buffer : ℕ → ℕ) (pool : List (List ℕ))
      → AllFrames msgs
      → AllFit msgs
      → (written : ℕ → ℕ) × (relay send packet msgs (at_rest buffer pool)
          ≡ some (at_rest written (pool ++ msgs)))
  unfolding relay
  relay-Pool [] buffer pool frames fit =
      (buffer, ap (λ p. some (at_rest buffer p)) (sym (append-nil pool)))
  relay-Pool (msg ∷ msgs) buffer pool frames fit =
      let sent =
        send_packet-returned send working msg (length msg) (IsFrame-positive msg frames.0)
          (omega arith) in
      let came = received_whole msg packet buffer pool frames.0 fit.0 in
      let (written, rest) =
        relay-Pool msgs (poke buffer 0 (take 4 msg)) (pool ++ (msg ∷ [])) frames.1 fit.1 in
      let assoc = append_assoc pool (msg ∷ []) msgs in
      (written, ground (arith, sent, came, rest, assoc))
