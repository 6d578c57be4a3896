-- ===== src/Client/Dialogs/Typing.antt =====
-- What can stand in the input fields of the dialogs.
use network_omok.Base.{
  ℕ, zero, suc, ◌+◌, ◌-◌, ◌*◌, ◌<◌, ◌≤◌, ◌≡◌, ◌⊎◌, inl, inr, refl, Bool, true, false, some, [], ◌∷◌,
  map, ap, ◌++◌, WString, length, length-append, arith, if◌then◌else◌, Bool-cases, ◌==◌, leb,
}
use network_omok.Net.Packet.{wide_bytes, wide}
use network_omok.Net.Packet.Items.{item_bytes}
use network_omok.Net.Packet.Bytes.{IsText, length-wide_bytes}
use network_omok.Client.Dialogs.{
  Keys, pressed_keys, typed, typed_digits, pop_back, erase_last, press_field, vk_back,
}

-- A digit or a letter.
abbrev IsKey : ℕ → Type 0
IsKey c = ((48 ≤ c) × (c ≤ 57)) ⊎ (((65 ≤ c) × (c ≤ 90)) ⊎ ((97 ≤ c) × (c ≤ 122)))

abbrev AllKeys : WString → Type 0
AllKeys [] = Unit {0}
AllKeys (c ∷ cs) = IsKey c × AllKeys cs

AllKeys-append : (xs ys : WString) → AllKeys xs → AllKeys ys → AllKeys (xs ++ ys)
AllKeys-append [] ys h k = k
AllKeys-append (x ∷ xs) ys h k = (h.0, AllKeys-append xs ys h.1 k)

pub AllKeys-IsText : (cs : WString) → AllKeys cs → IsText cs
AllKeys-IsText [] h = tt
AllKeys-IsText (c ∷ cs) h =
    let key = h.0 in (λ none_left. ground arith, ground arith, AllKeys-IsText cs h.1)

pressed_keys-AllKeys :
    (keys : Keys) (shift key n : ℕ)
    → ((c : ℕ) → key + shift ≤ c → c < key + shift + n → IsKey c)
    → AllKeys (pressed_keys keys shift key n)
unfolding pressed_keys
pressed_keys-AllKeys keys shift key zero all = tt
pressed_keys-AllKeys keys shift key (suc n) all =
    let rest =
      pressed_keys-AllKeys keys shift (suc key) n
        (λ c low high. all c (omega arith) (omega arith)) in
    let here = all (key + shift) (omega arith) (omega arith) in
    elim (Bool-cases (keys key)) [ inl down ↦ rw down (here, rest) | inr up ↦ rw up rest ]

length-pressed_keys : (keys : Keys) (shift key n : ℕ) → length (pressed_keys keys shift key n) ≤ n
unfolding pressed_keys
length-pressed_keys keys shift key zero = omega arith
length-pressed_keys keys shift key (suc n) =
    ground (arith, length-pressed_keys keys shift (suc key) n)

typed_digits-AllKeys : (keys : Keys) → AllKeys (typed_digits keys)
typed_digits-AllKeys keys =
    pressed_keys-AllKeys keys 0 48 10 (λ c low high. inl (omega arith, omega arith))

length-typed_digits : (keys : Keys) → length (typed_digits keys) ≤ 10
length-typed_digits keys = length-pressed_keys keys 0 48 10

typed-AllKeys : (caps : Bool) (keys : Keys) → AllKeys (typed caps keys)
typed-AllKeys true keys =
    AllKeys-append (pressed_keys keys 0 65 26) (typed_digits keys)
      (pressed_keys-AllKeys keys 0 65 26 (λ c low high. inr (inl (omega arith, omega arith))))
      (typed_digits-AllKeys keys)
typed-AllKeys false keys =
    AllKeys-append (pressed_keys keys 32 65 26) (typed_digits keys)
      (pressed_keys-AllKeys keys 32 65 26 (λ c low high. inr (inr (omega arith, omega arith))))
      (typed_digits-AllKeys keys)

pub length-typed : (caps : Bool) (keys : Keys) → length (typed caps keys) ≤ 36
length-typed caps keys = omega (
  arith,
  length-append (pressed_keys keys (if caps then 0 else 32) 65 26) (typed_digits keys),
  length-pressed_keys keys (if caps then 0 else 32) 65 26,
  length-typed_digits keys,
)

pub length-map : (cs : WString) → length {A = ℕ} (map (λ c. b'*') cs) ≡ length cs
length-map [] = refl
length-map (c ∷ cs) = ap suc (length-map cs)

-- What is left of a text without its last character.
pub pop_back-AllKeys :
    (cs : WString)
    → 0 < length cs
    → AllKeys cs
    → (ds : WString) × (pop_back cs ≡ some ds) × AllKeys ds × (length cs ≡ suc (length ds))
unfolding pop_back
pop_back-AllKeys [] some_left h = absurd (omega arith)
pop_back-AllKeys (c ∷ []) some_left h = ([], refl, tt, refl)
pop_back-AllKeys (c ∷ d ∷ cs) some_left h =
    let (ds, e, keys, size) = pop_back-AllKeys (d ∷ cs) (omega arith) h.1 in
    (c ∷ ds, rw e, (h.0, keys), omega (arith, size))

pub pop_back-some :
    (cs : WString)
    → 0 < length cs
    → (ds : WString) × (pop_back cs ≡ some ds) × (length cs ≡ suc (length ds))
unfolding pop_back
pop_back-some [] some_left = absurd (omega arith)
pop_back-some (c ∷ []) some_left = ([], refl, refl)
pop_back-some (c ∷ d ∷ cs) some_left =
    let (ds, e, size) = pop_back-some (d ∷ cs) (omega arith) in (c ∷ ds, rw e, omega (arith, size))

-- A field that takes no more keys from `limit` characters on: since all keys that are pressed in one
-- frame are taken, it can be longer than that.
pub record IsField (limit : ℕ) (cs : WString) : Type 0 where
  pub keys_only : AllKeys cs
  pub bounded : length cs < limit + 36

pub typed-IsField :
    (limit : ℕ) (cs : WString) (caps : Bool) (keys : Keys)
    → IsField limit cs
    → length cs < limit
    → IsField limit (cs ++ typed caps keys)
typed-IsField limit cs caps keys h short = record {
  keys_only = AllKeys-append cs (typed caps keys) h.keys_only (typed-AllKeys caps keys);
  bounded = omega (arith, length-append cs (typed caps keys), length-typed caps keys);
}

pub erase_last-IsField :
    (limit : ℕ) (cs : WString)
    → IsField limit cs
    → (ds : WString) × (erase_last cs ≡ some ds) × IsField limit ds
unfolding erase_last
erase_last-IsField limit cs h = elim (Bool-cases (length cs == 0)) [
  | inl empty ↦ (cs, rw empty, h)
  | inr more ↦
      let (ds, e, keys, size) = pop_back-AllKeys cs (ground arith) h.keys_only in
      let b = h.bounded in
      (ds, rw more e, record { keys_only = keys; bounded = omega (arith, size) })
]

-- The bytes of a field on the network.
pub length-field : (cs : WString) → length (item_bytes (wide cs)) ≡ length cs * 2 + 2
length-field cs = omega (arith, length-append (wide_bytes cs) (0 ∷ 0 ∷ []), length-wide_bytes cs)

pub press_field-IsField :
    (limit : ℕ) (selected caps : Bool) (keys : Keys) (cs : WString)
    → IsField limit cs
    → (ds : WString) × (press_field limit selected caps keys cs ≡ some ds) × IsField limit ds
unfolding press_field
press_field-IsField limit false caps keys cs h = (cs, refl, h)
press_field-IsField limit true caps keys cs h = elim (Bool-cases (keys vk_back)) [
  | inl back ↦
      let (ds, e, field) = erase_last-IsField limit cs h in (ds, ground (arith, back, e), field)
  | inr more ↦ elim (Bool-cases (leb limit (length cs))) [
    | inl full ↦ (cs, ground (arith, more, full), h)
    | inr short ↦ (
      cs ++ typed caps keys,
      ground (arith, more, short),
      typed-IsField limit cs caps keys h (ground (arith, short)),
    )
  ]
]

pub digits-IsField :
    (limit : ℕ) (cs : WString) (keys : Keys)
    → IsField limit cs
    → length cs < limit
    → IsField limit (cs ++ typed_digits keys)
digits-IsField limit cs keys h short = record {
  keys_only = AllKeys-append cs (typed_digits keys) h.keys_only (typed_digits-AllKeys keys);
  bounded = omega (arith, length-append cs (typed_digits keys), length-typed_digits keys);
}

pub erase_last-length : (cs ds : WString) → erase_last cs ≡ some ds → length ds ≡ length cs - 1
unfolding erase_last
erase_last-length cs ds e = elim (Bool-cases (length cs == 0)) [
  | inl empty ↦ ground (arith, empty)
  | inr more ↦
      let (rest, f, size) = pop_back-some cs (ground arith) in ground (arith, more, f, size)
]
