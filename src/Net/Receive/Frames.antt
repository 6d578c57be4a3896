-- ===== src/Net/Receive/Frames.antt =====
-- Packets that arrive completely are handled one after the other.
use network_omok.Base.{
  ℕ, zero, suc, ◌+◌, ◌*◌, ◌≤◌, ◌<◌, ◌≡◌, ◌∙◌, ◌⊎◌, inl, inr, sym, ap, some, List, [], ◌∷◌, ◌++◌,
  length, length-append, append_assoc, append-nil, arith,
}
use network_omok.Net.Packet.{peek, packet_buffer_size, packet_header_size}
use network_omok.Net.Packet.Bytes.{Holds, Holds-at, Holds-split, peek-Holds}
use network_omok.Net.Ring.{RingBuffer, release_buffer}
use network_omok.Net.Ring.Linear.{IsLinear, release_buffer-IsLinear}
use network_omok.Net.Receive.{Receiver, packet_len, take_packet, receive_loop}

-- A packet's bytes: at least a header, whose first two bytes are their number.
abbrev pub IsFrame : List ℕ → Type 0
IsFrame [] = ⊥
IsFrame (a ∷ []) = ⊥
IsFrame (a ∷ b ∷ bs) =
    (a + 256 * b ≡ length (a ∷ b ∷ bs)) × (packet_header_size ≤ length (a ∷ b ∷ bs))

abbrev pub AllFrames : List (List ℕ) → Type 0
AllFrames [] = Unit {0}
AllFrames (f ∷ fs) = IsFrame f × AllFrames fs

abbrev pub joined : List (List ℕ) → List ℕ
joined [] = []
joined (f ∷ fs) = f ++ joined fs

pub packet_len-IsFrame :
    (f : List ℕ) (s : Receiver)
    → IsFrame f
    → Holds s.buffer.memory s.buffer.read_pos f
    → (packet_len s ≡ length f) × (packet_header_size ≤ length f)
packet_len-IsFrame [] s ok h = absurd ok
packet_len-IsFrame (a ∷ []) s ok h = absurd ok
packet_len-IsFrame (a ∷ b ∷ bs) s ok h = ground arith

-- The state between two packets: the bytes from the read position on are those that have not been
-- handled, and no more than are in use.
pub record IsAt (s : Receiver) (bs : List ℕ) : Type 0 where
  pub linear : IsLinear s.buffer
  pub count : s.received_packet_size ≡ length bs
  pub used : length bs ≤ s.buffer.used_buffer_size
  pub small : length bs ≤ packet_buffer_size
  pub held : Holds s.buffer.memory s.buffer.read_pos bs

pub memory-release_buffer : (n : ℕ) (r : RingBuffer) → (release_buffer n r).1.memory ≡ r.memory
unfolding release_buffer
memory-release_buffer n r = ground arith

Holds-none : (m : ℕ → ℕ) (at : ℕ) (bs : List ℕ) → length bs ≡ 0 → Holds m at bs
Holds-none m at [] e = tt
Holds-none m at (b ∷ bs) e = absurd (omega arith)

-- After a release the rest is at the new read position.
Holds-release :
    (n : ℕ) (rest : List ℕ) (r t : RingBuffer)
    → Holds r.memory (r.read_pos + n) rest
    → t.memory ≡ r.memory
    → length rest ≤ t.used_buffer_size
    → (t.used_buffer_size ≡ 0) × (t.read_pos ≡ 0) ⊎ (t.read_pos ≡ r.read_pos + n)
    → Holds t.memory t.read_pos rest
Holds-release n rest r t h same fits (inl (empty, front)) =
    Holds-none t.memory t.read_pos rest (omega (arith, empty, fits))
Holds-release n rest r t h same fits (inr moved) =
    rw same (Holds-at r.memory (r.read_pos + n) t.read_pos rest (sym moved) h)

pub take_packet-IsAt :
    (f rest : List ℕ) (s : Receiver)
    → IsFrame f
    → IsAt s (f ++ rest)
    → IsAt (take_packet s) rest × ((take_packet s).handled ≡ s.handled ++ (f ∷ []))
unfolding take_packet
take_packet-IsAt f rest s ok h =
    let total = length-append f rest in
    let (here, after) = Holds-split s.buffer.memory s.buffer.read_pos f rest h.held in
    let (len, header) = packet_len-IsFrame f s ok here in
    let c = h.count in
    let u = h.used in
    let m = h.small in
    let n = packet_len s in
    let (t, e, linear, used, moved) =
      release_buffer-IsLinear n s.buffer h.linear (omega (arith, len, total)) in
    let same : (release_buffer n s.buffer).1 ≡ t = ap (λ p. p.1) e in
    let memory : t.memory ≡ s.buffer.memory = rw (sym same) (memory-release_buffer n s.buffer) in
    let at : Holds s.buffer.memory (s.buffer.read_pos + n) rest =
      Holds-at s.buffer.memory (s.buffer.read_pos + length f) (s.buffer.read_pos + n) rest
        (omega (arith, len)) after in
    (
      record {
        linear = rw same linear;
        count = omega (arith, len, total);
        used = rw same (omega (arith, len, total));
        small = omega (arith, total);
        held =
            rw same (Holds-release n rest s.buffer t at memory (omega (arith, len, total)) moved);
      },
      ap (λ g. s.handled ++ (g ∷ []))
          (ap (peek s.buffer.memory s.buffer.read_pos) len
            ∙ peek-Holds s.buffer.memory s.buffer.read_pos f here),
    )

-- Where the next packet is, as ReleaseBuffer says.
pub take_packet-Released :
    (f rest : List ℕ) (s : Receiver)
    → IsFrame f
    → IsAt s (f ++ rest)
    → ((release_buffer (packet_len s) s.buffer).0 ≡ some (take_packet s).buffer.read_pos)
      × ((take_packet s).buffer.memory ≡ s.buffer.memory)
unfolding take_packet
take_packet-Released f rest s ok h =
    let total = length-append f rest in
    let (here, after) = Holds-split s.buffer.memory s.buffer.read_pos f rest h.held in
    let (len, header) = packet_len-IsFrame f s ok here in
    let u = h.used in
    let (t, e, _, _, _) =
      release_buffer-IsLinear (packet_len s) s.buffer h.linear (omega (arith, len, total)) in
    (
      ap (λ p. p.0) e ∙ ap (λ p. some p.1.read_pos) (sym e),
      memory-release_buffer (packet_len s) s.buffer,
    )

pub receive_loop-Frames :
    (fs : List (List ℕ)) (fuel received_size : ℕ) (s : Receiver)
    → AllFrames fs
    → IsAt s (joined fs)
    → length (joined fs) < fuel
    → received_size ≡ length (joined fs)
    → (t : Receiver) × (receive_loop fuel received_size s ≡ some t)
      × IsAt t []
      × (t.handled ≡ s.handled ++ fs)
unfolding receive_loop
receive_loop-Frames fs zero k s ok h enough e = absurd (omega arith)
receive_loop-Frames [] (suc fuel) k s ok h enough e =
    let c = h.count in (s, ground arith, h, sym (append-nil s.handled))
receive_loop-Frames (f ∷ fs) (suc fuel) k s ok h enough e =
    let total = length-append f (joined fs) in
    let (here, after) = Holds-split s.buffer.memory s.buffer.read_pos f (joined fs) h.held in
    let (len, header) = packet_len-IsFrame f s ok.0 here in
    let (next, done) = take_packet-IsAt f (joined fs) s ok.0 h in
    let (t, went, final, all) =
      receive_loop-Frames fs fuel (take_packet s).received_packet_size (take_packet s) ok.1 next
        (omega (arith, total)) next.count in
    let c = h.count in
    let m = h.small in
    let released =
      release_buffer-IsLinear (packet_len s) s.buffer h.linear
        (omega (arith, len, total, h.used)) in
    let at = ap (λ p. p.0) released.1 in
    (
      t,
      ground (arith, went, at, len, header, total, c, m, e),
      final,
      all ∙ (ap (λ g. g ++ fs) done ∙ append_assoc s.handled (f ∷ []) fs),
    )
