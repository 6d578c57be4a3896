-- ===== src/Net/Packet/Bytes.antt =====
-- The bytes of a packet's data: what has been written is what is read.
use network_omok.Base.{
  ℕ, zero, suc, ◌+◌, ◌*◌, ◌/◌, ◌<◌, ◌≡◌, ◌≢◌, ◌∙◌, refl, ap, subst, some, List, [], ◌∷◌, ◌++◌,
  WString, ◌==◌, if◌then◌else◌, length, arith,
}
use network_omok.Net.Packet.{number_bytes, bytes_number, wide_bytes, poke, peek, wide_string}

-- The memory has the bytes at the position.
abbrev pub Holds : (ℕ → ℕ) → ℕ → List ℕ → Type 0
Holds memory at [] = Unit {0}
Holds memory at (b ∷ bs) = (memory at ≡ b) × Holds memory (suc at) bs

pub poke_below :
    (memory : ℕ → ℕ) (at : ℕ) (bs : List ℕ) (i : ℕ) → i < at → poke memory at bs i ≡ memory i
unfolding poke
poke_below memory at [] i h = refl
poke_below memory at (b ∷ bs) i h =
    ground (arith, poke_below (λ j. if at == j then b else memory j) (suc at) bs i)

pub Holds-poke : (memory : ℕ → ℕ) (at : ℕ) (bs : List ℕ) → Holds (poke memory at bs) at bs
unfolding poke
Holds-poke memory at [] = tt
Holds-poke memory at (b ∷ bs) = (
  ground (arith, poke_below (λ j. if at == j then b else memory j) (suc at) bs at),
  Holds-poke (λ j. if at == j then b else memory j) (suc at) bs,
)

pub Holds-ext :
    (m n : ℕ → ℕ) (at : ℕ) (bs : List ℕ)
    → ((i : ℕ) → i < at + length bs → n i ≡ m i)
    → Holds m at bs
    → Holds n at bs
Holds-ext m n at [] same h = tt
Holds-ext m n at (b ∷ bs) same h =
    (same at (omega arith) ∙ h.0, Holds-ext m n (suc at) bs (λ i below. same i (omega arith)) h.1)

pub Holds-at : (m : ℕ → ℕ) (at to : ℕ) (bs : List ℕ) → at ≡ to → Holds m at bs → Holds m to bs
Holds-at m at to bs e h = subst (λ i. Holds m i bs) e h

pub Holds-join :
    (m : ℕ → ℕ) (at : ℕ) (xs ys : List ℕ)
    → Holds m at xs
    → Holds m (at + length xs) ys
    → Holds m at (xs ++ ys)
Holds-join m at [] ys h k = Holds-at m (at + 0) at ys (omega arith) k
Holds-join m at (x ∷ xs) ys h k =
    (h.0, Holds-join m (suc at) xs ys h.1 (Holds-at m (at + suc (length xs)) _ ys (omega arith) k))

pub Holds-split :
    (m : ℕ → ℕ) (at : ℕ) (xs ys : List ℕ)
    → Holds m at (xs ++ ys)
    → Holds m at xs × Holds m (at + length xs) ys
Holds-split m at [] ys h = (tt, Holds-at m at (at + 0) ys (omega arith) h)
Holds-split m at (x ∷ xs) ys h =
    let (one, two) = Holds-split m (suc at) xs ys h.1 in
    ((h.0, one), Holds-at m (suc at + length xs) (at + suc (length xs)) ys (omega arith) two)

pub peek-Holds : (m : ℕ → ℕ) (at : ℕ) (bs : List ℕ) → Holds m at bs → peek m at (length bs) ≡ bs
unfolding peek
peek-Holds m at [] h = refl
peek-Holds m at (b ∷ bs) h = ground (arith, peek-Holds m (suc at) bs h.1)

pub length-number_bytes : (k n : ℕ) → length (number_bytes k n) ≡ k
unfolding number_bytes
length-number_bytes zero n = refl
length-number_bytes (suc k) n = ap suc (length-number_bytes k (n / 256))

-- The numbers that fit into k bytes are those below this.
abbrev pub capacity : ℕ → ℕ
capacity zero = 1
capacity (suc k) = 256 * capacity k

pub bytes_number-number_bytes : (k n : ℕ) → n < capacity k → bytes_number (number_bytes k n) ≡ n
unfolding number_bytes bytes_number
bytes_number-number_bytes zero n h = omega arith
bytes_number-number_bytes (suc k) n h =
    let small : n / 256 < capacity k = omega arith in
    omega (arith, bytes_number-number_bytes k (n / 256) small)

pub length-wide_bytes : (us : WString) → length (wide_bytes us) ≡ length us * 2
unfolding wide_bytes
length-wide_bytes [] = refl
length-wide_bytes (u ∷ us) = omega (arith, length-wide_bytes us)

-- The units of a string that a zero can end.
abbrev pub IsText : WString → Type 0
IsText [] = Unit {0}
IsText (u ∷ us) = (u ≢ 0) × (u < 65536) × IsText us

pub wide_string-Holds :
    (m : ℕ → ℕ) (at n : ℕ) (us : WString)
    → IsText us
    → Holds m at (wide_bytes us ++ (0 ∷ 0 ∷ []))
    → length us < n
    → wide_string m at n ≡ some us
unfolding wide_string wide_bytes
wide_string-Holds m at zero us t h enough = absurd (omega arith)
wide_string-Holds m at (suc n) [] t h enough = ground arith
wide_string-Holds m at (suc n) (u ∷ us) t h enough =
    ground (arith, wide_string-Holds m (suc (suc at)) n us t.2 h.1.1)
