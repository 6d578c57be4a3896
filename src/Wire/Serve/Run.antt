-- ===== src/Wire/Serve/Run.antt =====
-- A transfer that brings the packets of clients runs their requests.
use network_omok.Base.{
  ℕ, zero, suc, ◌<◌, ◌≤◌, ◌≡◌, ◌∙◌, refl, ap, subst, Option, none, some, List, [], ◌∷◌, ◌++◌, map,
  length, length-append, arith, Option-cases, inl, inr, add32,
}
use network_omok.Protocol.{OmProtocol, protocol_id}
use network_omok.Net.Packet.{Packet, new_packet, copy_to_packet_buffer, packet_buffer_size}
use network_omok.Net.Packet.Bytes.{Holds, Holds-split}
use network_omok.Net.Packet.Items.{AllItems, items_bytes}
use network_omok.Net.Packet.Reading.{IsReading}
use network_omok.Net.Packet.Framing.{
  packet_at, frame, length-frame, frame-IsFrame, copied-frame, put_items-frame,
}
use network_omok.Net.Ring.Linear.{IsLinear}
use network_omok.Net.Receive.{Receiver, take_packet, release_all}
use network_omok.Net.Receive.Frames.{
  joined, IsAt, packet_len-IsFrame, take_packet-IsAt, take_packet-Released,
}
use network_omok.Net.Receive.Dispatched.{IsIdle, release_all-IsIdle}
use network_omok.Server.{Float, Address, Server}
use network_omok.Server.Dispatch.{packet_parsing}
use network_omok.Wire.{ClientPacket, message_of, items_of, pack, packet_bytes, Database}
use network_omok.Wire.Reading.{request_of, handle_packet-Carried}
use network_omok.Wire.Serve.{next_copy, serve, serve_transfer}

-- The requests of the packets, one after the other.
pub run_requests : Address → Database → List ClientPacket → Server → Option Server
run_requests me db [] s = some s
run_requests me db (pk ∷ pks) s = elim (packet_parsing me (request_of db s pk) s) [
  | none ↦ none
  | some (done, t) ↦ run_requests me db pks t
]

-- The bytes that SendPacket puts on the network for the packets.
pub sent_bytes : (Float → ℕ) → List ClientPacket → Option (List ℕ)
unfolding pack
sent_bytes bits [] = some []
sent_bytes bits (pk ∷ pks) = elim (pack bits (message_of pk)) [
  | none ↦ none
  | some p ↦ elim (sent_bytes bits pks) [ none ↦ none | some bs ↦ some (packet_bytes p ++ bs) ]
]

protocol_id-small : (p : OmProtocol) → protocol_id p < 65536
unfolding protocol_id
protocol_id-small p = grind arith

-- The receiver behind as many packets.
drain : List ClientPacket → Receiver → Receiver
drain [] r = r
drain (pk ∷ pks) r = drain pks (take_packet r)

served_then :
    (o : Option (Unit {0} × Server)) (f : Server → Option (Receiver × Server))
    (runs : Server → Option Server) (r : Receiver)
    → ((t : Server)
        → f t ≡ elim (runs t) as (λ _. Option (Receiver × Server)) [
          | none ↦ none
          | some u ↦ some (r, u)
        ])
    → elim o as (λ _. Option (Receiver × Server)) [ none ↦ none | some (done, t) ↦ f t ]
      ≡ elim (elim o as (λ _. Option Server) [ none ↦ none | some (done, t) ↦ runs t ])
          as (λ _. Option (Receiver × Server)) [ none ↦ none | some u ↦ some (r, u) ]
served_then none f runs r same = refl
served_then (some (done, t)) f runs r same = same t

module _ (bits : Float → ℕ) where
  -- The items of a client's packet, and the bytes that it is on the network.
  abbrev carried : ClientPacket → List ℕ
  carried pk = items_bytes (items_of bits (message_of pk))

  abbrev pub packet_frame : ClientPacket → List ℕ
  packet_frame pk = frame (protocol_id (message_of pk).protocol) (carried pk)

  -- Texts without a zero, numbers that fit into their bytes, and all within the buffer of a packet.
  abbrev pub AllSendable : List ClientPacket → Type 0
  AllSendable [] = Unit {0}
  AllSendable (pk ∷ pks) =
      AllItems (items_of bits (message_of pk))
      × (length (carried pk) < packet_buffer_size)
      × AllSendable pks

  -- The local packet is a copy of the first packet that is left.
  abbrev Copies : List ClientPacket → Packet → Type 0
  Copies [] q = Unit {0}
  Copies (pk ∷ pks) q = IsReading q (carried pk) × (q.type ≡ protocol_id (message_of pk).protocol)

  first_copy :
      (pks : List ClientPacket) (memory : ℕ → ℕ) (at size : ℕ) (q : Packet)
      → AllSendable pks
      → size ≡ length (joined (map packet_frame pks))
      → Holds memory at (joined (map packet_frame pks))
      → Copies pks (copy_to_packet_buffer (packet_at memory at) size q)
  first_copy [] memory at size q ok come h = tt
  first_copy (pk ∷ pks) memory at size q ok come h =
      let id = protocol_id (message_of pk).protocol in
      let total = length-append (packet_frame pk) (joined (map packet_frame pks)) in
      let (here, _) = Holds-split memory at (packet_frame pk) (joined (map packet_frame pks)) h in
      copied-frame id (carried pk) memory at size q (protocol_id-small (message_of pk).protocol)
        ok.1 (omega (arith, come, total, length-frame id (carried pk))) here

  next_copy-Copies :
      (pk : ClientPacket) (pks : List ClientPacket) (r : Receiver) (q : Packet)
      → AllSendable (pk ∷ pks)
      → IsAt r (joined (map packet_frame (pk ∷ pks)))
      → (p : Packet) × (next_copy r q ≡ some p) × Copies pks p
  unfolding next_copy
  next_copy-Copies pk [] r q ok h =
      let framed = frame-IsFrame (protocol_id (message_of pk).protocol) (carried pk) ok.1 in
      let (next, _) = take_packet-IsAt (packet_frame pk) [] r framed h in
      let empty = next.count in (q, ground (arith, empty), tt)
  next_copy-Copies pk (pk' ∷ pks) r q ok h =
      let rest = joined (map packet_frame (pk' ∷ pks)) in
      let framed = frame-IsFrame (protocol_id (message_of pk).protocol) (carried pk) ok.1 in
      let (next, _) = take_packet-IsAt (packet_frame pk) rest r framed h in
      let (at, memory) = take_packet-Released (packet_frame pk) rest r framed h in
      let size = next.count in
      let long : 0 < (take_packet r).received_packet_size = omega (
        arith,
        size,
        length-append (packet_frame pk') (joined (map packet_frame pks)),
        length-frame (protocol_id (message_of pk').protocol) (carried pk'),
      ) in
      (
        copy_to_packet_buffer (packet_at r.buffer.memory (take_packet r).buffer.read_pos)
            (take_packet r).received_packet_size q,
        ground (arith, long, at),
        first_copy (pk' ∷ pks) r.buffer.memory (take_packet r).buffer.read_pos
            (take_packet r).received_packet_size q ok.2 size
            (subst (λ m. Holds m (take_packet r).buffer.read_pos rest) memory next.held),
      )

  module _ (me : Address) (db : Database) where
    serve-step :
        (pk : ClientPacket) (pks : List ClientPacket) (fuel size : ℕ) (r : Receiver) (q p : Packet)
        (s : Server)
        → AllSendable (pk ∷ pks)
        → IsAt r (joined (map packet_frame (pk ∷ pks)))
        → size ≡ length (joined (map packet_frame (pk ∷ pks)))
        → Copies (pk ∷ pks) q
        → next_copy r q ≡ some p
        → serve me db (suc fuel) size r q s
          ≡ elim (packet_parsing me (request_of db s pk) s) as (λ _. Option (Receiver × Server)) [
            | none ↦ none
            | some (done, t) ↦
                serve me db fuel (take_packet r).received_packet_size (take_packet r) p t
          ]
    unfolding serve
    serve-step pk pks fuel size r q p s ok h e copy went =
        let f = packet_frame pk in
        let tail = joined (map packet_frame pks) in
        let framed = frame-IsFrame (protocol_id (message_of pk).protocol) (carried pk) ok.1 in
        let (here, _) = Holds-split r.buffer.memory r.buffer.read_pos f tail h.held in
        let (len, header) = packet_len-IsFrame f r framed here in
        let total = length-append f tail in
        let handled = handle_packet-Carried bits db s me pk q ok.0 copy.0 copy.1 in
        let count = h.count in
        elim (Option-cases (packet_parsing me (request_of db s pk) s)) [
          | inl open_end ↦
              rw open_end (ground (arith, open_end, handled, len, header, total, count, e))
          | inr ((done, t), ran) ↦
              rw ran (ground (arith, ran, handled, went, len, header, total, count, e))
        ]

    serve-Requests :
        (pks : List ClientPacket) (fuel size : ℕ) (r : Receiver) (q : Packet) (s : Server)
        → AllSendable pks
        → IsAt r (joined (map packet_frame pks))
        → length (joined (map packet_frame pks)) < fuel
        → size ≡ length (joined (map packet_frame pks))
        → Copies pks q
        → serve me db fuel size r q s
          ≡ elim (run_requests me db pks s) as (λ _. Option (Receiver × Server)) [
            | none ↦ none
            | some t ↦ some (drain pks r, t)
          ]
    unfolding serve run_requests drain
    serve-Requests pks zero size r q s ok h enough e copy = absurd (omega arith)
    serve-Requests [] (suc fuel) size r q s ok h enough e copy =
        let empty = h.count in ground (arith, empty)
    serve-Requests (pk ∷ pks) (suc fuel) size r q s ok h enough e copy =
        let (p, went, copy') = next_copy-Copies pk pks r q ok h in
        let framed = frame-IsFrame (protocol_id (message_of pk).protocol) (carried pk) ok.1 in
        let (next, _) =
          take_packet-IsAt (packet_frame pk) (joined (map packet_frame pks)) r framed h in
        let total = length-append (packet_frame pk) (joined (map packet_frame pks)) in
        let long = length-frame (protocol_id (message_of pk).protocol) (carried pk) in
        let rest : (t : Server)
            → serve me db fuel (take_packet r).received_packet_size (take_packet r) p t
              ≡ elim (run_requests me db pks t) as (λ _. Option (Receiver × Server)) [
                | none ↦ none
                | some u ↦ some (drain pks (take_packet r), u)
              ] =
          λ t.
            serve-Requests pks fuel (take_packet r).received_packet_size (take_packet r) p t ok.2
              next (omega (arith, total, long)) next.count copy' in
        serve-step pk pks fuel size r q p s ok h e copy went
        ∙ served_then (packet_parsing me (request_of db s pk) s) _ _ _ rest

  drain-IsAt :
      (pks : List ClientPacket) (r : Receiver)
      → AllSendable pks
      → IsAt r (joined (map packet_frame pks))
      → IsAt (drain pks r) []
  unfolding drain
  drain-IsAt [] r ok h = h
  drain-IsAt (pk ∷ pks) r ok h =
      let framed = frame-IsFrame (protocol_id (message_of pk).protocol) (carried pk) ok.1 in
      drain-IsAt pks (take_packet r) ok.2
        (take_packet-IsAt (packet_frame pk) (joined (map packet_frame pks)) r framed h).0

  -- What a client puts on the network for these packets is one frame behind the other.
  pub sent_bytes-frames :
      (pks : List ClientPacket)
      → AllSendable pks
      → sent_bytes bits pks ≡ some (joined (map packet_frame pks))
  unfolding sent_bytes pack
  sent_bytes-frames [] ok = refl
  sent_bytes-frames (pk ∷ pks) ok =
      let (p, packed, bytes) =
        put_items-frame (protocol_id (message_of pk).protocol) (items_of bits (message_of pk))
          ok.1 in
      ground (arith, packed, bytes, sent_bytes-frames pks ok.2)

  module _ (me : Address) (db : Database) where
    -- A transfer that brings to a session the bytes that a client has put together for any packets,
    -- each with texts without a zero, numbers that fit, and room for all of it, and nothing else,
    -- where nothing is left from before: DispatchReceive runs exactly the requests of these packets
    -- in this order, so it ends in the server's state behind the last of them, or with undefined
    -- behaviour if a handler does so, and the receive buffer is empty again.
    pub serve_transfer-Sent :
        (pks : List ClientPacket) (bs : List ℕ) (fuel : ℕ) (r : Receiver) (s : Server)
        → AllSendable pks
        → sent_bytes bits pks ≡ some bs
        → IsLinear r.buffer
        → r.received_packet_size ≡ 0
        → length bs ≤ packet_buffer_size
        → length bs ≤ r.buffer.used_buffer_size
        → Holds r.buffer.memory r.buffer.read_pos bs
        → length bs < fuel
        → (t : Receiver) × (serve_transfer me db fuel (length bs) r s
            ≡ elim (run_requests me db pks s) as (λ _. Option (Receiver × Server)) [
              | none ↦ none
              | some u ↦ some (t, u)
            ])
          × IsIdle t
    unfolding serve_transfer
    serve_transfer-Sent pks bs fuel r s ok sent v none_left small used held enough =
        let fs = joined (map packet_frame pks) in
        let same : bs ≡ fs = cc (sent_bytes-frames pks ok, sent) in
        let size = add32 r.received_packet_size (length bs) in
        let start : Receiver = record r { received_packet_size = size } in
        let count : size ≡ length bs = omega arith in
        let long = ap length same in
        let held_there = subst (Holds r.buffer.memory r.buffer.read_pos) same held in
        let at : IsAt start fs = record {
          linear = v;
          count = omega (arith, long);
          used = omega (arith, long);
          small = omega (arith, long);
          held = held_there;
        } in
        let copy =
          first_copy pks r.buffer.memory r.buffer.read_pos size (new_packet 0) ok (count ∙ long)
            held_there in
        let final = drain-IsAt pks start ok at in
        let empty = final.count in
        let ran =
          serve-Requests me db pks fuel (length bs) start _ s ok at (omega (arith, long)) long
            copy in
        (
          release_all (drain pks start),
          elim (Option-cases (run_requests me db pks s)) [
            | inl open_end ↦ rw open_end (ground (arith, ran, open_end, count, small))
            | inr (u, done) ↦ rw done (ground (arith, ran, done, count, small, empty))
          ],
          release_all-IsIdle (drain pks start) final.linear empty,
        )
