-- ===== src/Net/Socket/Loops.antt =====
-- When the loops of Project/CoreNetClientLib/NetWorkClient.cpp end, and with what.
use network_omok.Base.{
  ℕ, zero, suc, ◌+◌, ◌-◌, ◌≤◌, ◌<◌, ◌≡◌, refl, Option, some, List, [], ◌∷◌, ◌++◌, ◌∙◌, ap, sym,
  arith, length, ltb, ◌==◌, if◌then◌else◌, Bool-cases, inl, inr,
}
use network_omok.Net.Packet.{poke}
use network_omok.Net.Packet.Bytes.{Holds, Holds-poke}
use network_omok.Net.Socket.{take, drop, returned, send_loop, send_packet, recv_body}

-- A call with something to send takes some of it.
abbrev pub IsWorking : (ℕ → ℕ → Option ℕ) → Type 0
IsWorking send = (call len : ℕ) → 0 < len → (n : ℕ) × (send call len ≡ some n) × (0 < n) × (n ≤ len)

take-empty : (n : ℕ) → take n [] ≡ []
unfolding take
take-empty zero = refl
take-empty (suc n) = refl

suc_plus : {A : Type 0} (n m : ℕ) (f : ℕ → A) → f (suc (n + m)) ≡ f (suc n + m)
suc_plus n m f = ap f (omega arith)

take-drop : (n m : ℕ) (bs : List ℕ) → take n bs ++ take m (drop n bs) ≡ take (n + m) bs
unfolding take drop
take-drop zero m bs = ap (λ k. take k bs) (omega arith)
take-drop (suc n) m [] = take-empty m ∙ sym (take-empty (suc n + m))
take-drop (suc n) m (b ∷ bs) =
    ap (λ xs. b ∷ xs) (take-drop n m bs) ∙ suc_plus n m (λ k. take k (b ∷ bs))

take-length : (bs : List ℕ) → take (length bs) bs ≡ bs
unfolding take
take-length [] = refl
take-length (b ∷ bs) = ap (λ xs. b ∷ xs) (take-length bs)

module _ (send : ℕ → ℕ → Option ℕ) (working : IsWorking send) (msg : List ℕ) where
  send_loop-returned :
      (fuel call size : ℕ) (wire : List ℕ)
      → size < length msg
      → length msg ≤ size + fuel
      → wire ≡ take size msg
      → send_loop send msg fuel call size wire ≡ returned (length msg) msg
  unfolding send_loop
  send_loop-returned zero call size wire more enough so_far = absurd (omega arith)
  send_loop-returned (suc fuel) call size wire more enough so_far =
      let (n, took, some_bytes, fits) = working call (length msg - size) (omega arith) in
      let taken : wire ++ take n (drop size msg) ≡ take (size + n) msg =
        ap (λ w. w ++ take n (drop size msg)) so_far ∙ take-drop size n msg in
      elim (Bool-cases (ltb (size + n) (length msg))) [
        | inl on ↦
            let rest =
              send_loop-returned fuel (suc call) (size + n) _ (ground arith) (omega arith) taken in
            ground (arith, took, on, rest)
        | inr over ↦
            let all : size + n ≡ length msg = ground arith in
            let bytes = taken ∙ (ap (λ k. take k msg) all ∙ take-length msg) in
            ground (arith, took, over, all, bytes)
      ]

  -- If every call of `send` that is given something takes at least one byte and at most all, then
  -- the loop of SendPacket ends after at most as many calls as the packet has bytes, returns the
  -- length of the packet, and the calls together have taken exactly its bytes, in their order.
  pub send_packet-returned :
      (fuel : ℕ)
      → 0 < length msg
      → length msg ≤ fuel
      → send_packet send msg fuel ≡ returned (length msg) msg
  unfolding send_packet take
  send_packet-returned fuel full enough = send_loop-returned fuel 0 0 [] full (omega arith) refl

poke_above :
    (memory : ℕ → ℕ) (at : ℕ) (bs : List ℕ) (i : ℕ)
    → at + length bs ≤ i
    → poke memory at bs i ≡ memory i
unfolding poke
poke_above memory at [] i h = refl
poke_above memory at (b ∷ bs) i h =
    ground (arith, poke_above (λ j. if at == j then b else memory j) (suc at) bs i)

-- A body that arrives in two parts: the second is written over the first, at the start of the data,
-- and the bytes behind it and behind the first part stay as they were.
pub recv_body_in_parts :
    (recv : ℕ → ℕ → List ℕ) (first second : List ℕ) (data_field : ℕ → ℕ)
    → 0 < length first
    → 0 < length second
    → recv 0 (length first + length second) ≡ first
    → recv 1 (length second) ≡ second
    → (written : ℕ → ℕ) × (recv_body recv (length first + length second) 2 0 0 data_field
        ≡ some (length first + length second, written))
      × Holds written 0 second
      × ((i : ℕ) → length first ≤ i → length second ≤ i → written i ≡ data_field i)
unfolding recv_body
recv_body_in_parts recv first second data_field some_first some_second one two =
    let written = poke (poke data_field 0 first) 0 second in
    (
      written,
      ground (arith, one, two),
      Holds-poke (poke data_field 0 first) 0 second,
      λ i behind behind'.
          poke_above (poke data_field 0 first) 0 second i (omega arith)
          ∙ poke_above data_field 0 first i (omega arith),
    )
