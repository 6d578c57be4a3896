-- ===== src/Net/Receive/Dispatched.antt =====
-- The whole of DispatchReceive: for complete packets, and for a packet that has come in part.
use network_omok.Base.{
  ℕ, ◌+◌, ◌-◌, ◌*◌, ◌≤◌, ◌<◌, ◌≡◌, ◌∙◌, refl, sym, ap, some, List, ◌++◌, length, arith, sub32,
  add32,
}
use network_omok.Net.Packet.{peek, poke, packet_buffer_size}
use network_omok.Net.Packet.Bytes.{Holds, Holds-at, Holds-ext, poke_below}
use network_omok.Net.Ring.{RingBuffer, release_buffer, allocate_to_buffer, end_pos}
use network_omok.Net.Ring.Linear.{IsLinear, release_buffer-IsLinear, allocate_to_buffer-IsLinear}
use network_omok.Net.Receive.{Receiver, release_all, keep_rest, dispatch_receive}
use network_omok.Net.Receive.Frames.{
  AllFrames, joined, IsAt, receive_loop-Frames, memory-release_buffer,
}

-- The buffer with nothing in use, ready for the next transfer.
abbrev pub IsIdle : Receiver → Type 0
IsIdle s =
    (s.received_packet_size ≡ 0)
    × (s.buffer.used_buffer_size ≡ 0)
    × (s.buffer.read_pos ≡ 0)
    × (s.buffer.write_pos ≡ 0)

pub release_all-IsIdle :
    (s : Receiver) → IsLinear s.buffer → s.received_packet_size ≡ 0 → IsIdle (release_all s)
unfolding release_buffer
release_all-IsIdle s v e =
    let c = v.created in
    let o = v.ordered in
    let i = v.inside in (ground arith, ground arith, ground arith, ground arith)

-- A transfer that brings complete packets and nothing else, where nothing is left from before: the
-- loop ends, exactly these packets are handled in this order, and the buffer is empty.
pub dispatch_receive-Frames :
    (fs : List (List ℕ)) (fuel : ℕ) (s : Receiver)
    → AllFrames fs
    → IsLinear s.buffer
    → s.received_packet_size ≡ 0
    → length (joined fs) ≤ packet_buffer_size
    → length (joined fs) ≤ s.buffer.used_buffer_size
    → Holds s.buffer.memory s.buffer.read_pos (joined fs)
    → length (joined fs) < fuel
    → (t : Receiver) × (dispatch_receive fuel (length (joined fs)) s ≡ some t)
      × (t.handled ≡ s.handled ++ fs)
      × IsIdle t
unfolding dispatch_receive
dispatch_receive-Frames fs fuel s ok v none_left small used held enough =
    let start : Receiver = record s {
      received_packet_size = add32 s.received_packet_size (length (joined fs));
    } in
    let at : IsAt start (joined fs) = record {
      linear = v;
      count = omega arith;
      used = used;
      small = small;
      held = held;
    } in
    let (t, went, final, all) =
      receive_loop-Frames fs fuel (length (joined fs)) start ok at enough refl in
    let empty = final.count in
    (release_all t, ground (arith, went, empty), all, release_all-IsIdle t final.linear empty)

-- A release of some but not all of the bytes in use.
release_buffer-Some :
    (n : ℕ) (r : RingBuffer)
    → IsLinear r
    → n < r.used_buffer_size
    → (t : RingBuffer) × (release_buffer n r ≡ (some t.read_pos, t))
      × IsLinear t
      × (t.used_buffer_size + n ≡ r.used_buffer_size)
      × (t.read_pos ≡ r.read_pos + n)
      × (t.memory ≡ r.memory)
release_buffer-Some n r v less =
    let (t, e, linear, used, moved) = release_buffer-IsLinear n r v (omega arith) in
    (
      t,
      e,
      linear,
      used,
      omega (arith, moved),
      sym (ap (λ p. p.1.memory) e) ∙ memory-release_buffer n r,
    )

keep_rest_steps :
    (s : Receiver) (b c d : RingBuffer)
    → release_buffer s.received_packet_size s.buffer ≡ (some b.read_pos, b)
    → release_buffer (sub32 b.used_buffer_size s.received_packet_size) b ≡ (some c.read_pos, c)
    → allocate_to_buffer s.received_packet_size c ≡ (some c.write_pos, d)
    → keep_rest s
      ≡ some (record s {
        buffer = record d {
          memory = poke d.memory c.write_pos (peek d.memory b.read_pos s.received_packet_size);
        };
      })
unfolding keep_rest
keep_rest_steps s b c d e1 e2 e3 = ground (arith, e1, e2, e3)

-- A packet of which `n` bytes have come, with more than twice as many bytes in use: the read
-- position goes to the last `n` bytes in use, whatever they are, and not to the bytes that have come.
pub keep_rest_loses_rest :
    (s : Receiver) (last : List ℕ)
    → IsLinear s.buffer
    → 0 < length last
    → s.received_packet_size ≡ length last
    → length last * 2 < s.buffer.used_buffer_size
    → s.buffer.write_pos + length last ≤ end_pos
    → Holds s.buffer.memory (s.buffer.write_pos - length last) last
    → (t : Receiver) × (keep_rest s ≡ some t)
      × (t.buffer.read_pos ≡ s.buffer.write_pos - length last)
      × Holds t.buffer.memory t.buffer.read_pos last
keep_rest_loses_rest s last v some_rest rest room fits held =
    let n = s.received_packet_size in
    let o = v.ordered in
    let (b, e1, v1, used1, read1, memory1) = release_buffer-Some n s.buffer v (omega arith) in
    let (c, e2, v2, used2, read2, memory2) =
      release_buffer-Some (sub32 b.used_buffer_size n) b v1 (omega arith) in
    let o2 = v2.ordered in
    let (d, e3, v3, read3, write3, memory3) = allocate_to_buffer-IsLinear n c v2 (omega arith) in
    (
      record s {
        buffer = record d { memory = poke d.memory c.write_pos (peek d.memory b.read_pos n) };
      },
      keep_rest_steps s b c d e1 e2 e3,
      omega arith,
      Holds-at _ (s.buffer.write_pos - length last) d.read_pos last (omega arith) (
          Holds-ext s.buffer.memory _ (s.buffer.write_pos - length last) last
            (λ j below.
              poke_below d.memory c.write_pos _ j (omega arith)
              ∙ ap (λ m. m j) (memory3 ∙ (memory2 ∙ memory1)))
            held),
    )
