-- ===== src/Client/Dialogs/SignUp/Inputs.antt =====
-- Project/DXClient/SignUpUI.cpp: what the keys do to the fields of the dialog for a new account.
use network_omok.Base.{
  ℕ, ◌*◌, ◌≡◌, Bool, some, ◌++◌, length, length-append, arith, leb, ◌==◌, Bool-cases, inl, inr,
  add32, sub32, if◌then◌else◌, not,
}
use network_omok.Client.Dialogs.{Keys, typed, typed_digits, vk_back, vk_capital}
use network_omok.Client.Dialogs.Typing.{
  IsField, typed-IsField, length-typed, digits-IsField, erase_last-IsField, erase_last-length,
}
use network_omok.Client.Dialogs.SignUp.{Input, SignUpUi, press_text, press_age, input_key_check}

-- A text of letters and digits that is drawn four pixels to the left for each of its characters.
pub record IsPlaced (left : ℕ) (i : Input) : Type 0 where
  pub field : IsField 10 i.buffer
  pub placed : add32 i.left (4 * length i.buffer) ≡ left

pub record IsTyping (left : ℕ) (ui : SignUpUi) : Type 0 where
  pub id : IsPlaced left ui.id
  pub ps : IsPlaced left ui.ps
  pub age : IsField 2 ui.age.buffer

press_text-IsPlaced :
    (left : ℕ) (caps : Bool) (keys : Keys) (i : Input)
    → IsPlaced left i
    → (j : Input) × (press_text caps keys i ≡ some j) × IsPlaced left j
unfolding press_text
press_text-IsPlaced left caps keys i h = elim (Bool-cases i.pressed) [
  | inr idle ↦ (i, ground (arith, idle), h)
  | inl on ↦ elim (Bool-cases (keys vk_back)) [
    | inl back ↦
        let (cs, e, field) = erase_last-IsField 10 i.buffer h.field in
        let size = erase_last-length i.buffer cs e in
        let at = h.placed in
        (
          record i { buffer = cs; left = if length i.buffer == 0 then i.left else add32 i.left 4 },
          ground (arith, on, back, e),
          record { field = field; placed = ground (arith, size, at) },
        )
    | inr more ↦ elim (Bool-cases (leb 10 (length i.buffer))) [
      | inl full ↦ (i, ground (arith, on, more, full), h)
      | inr short ↦
          let new = typed caps keys in
          let at = h.placed in
          let total = length-append i.buffer new in
          let few = length-typed caps keys in
          (
            record i { buffer = i.buffer ++ new; left = sub32 i.left (4 * length new) },
            ground (arith, on, more, short),
            record {
              field = typed-IsField 10 i.buffer caps keys h.field (ground (arith, short));
              placed = omega (arith, at, total, few);
            },
          )
    ]
  ]
]

press_age-IsField :
    (keys : Keys) (i : Input)
    → IsField 2 i.buffer
    → (j : Input) × (press_age keys i ≡ some j) × IsField 2 j.buffer
unfolding press_age
press_age-IsField keys i h = elim (Bool-cases i.pressed) [
  | inr idle ↦ (i, ground (arith, idle), h)
  | inl on ↦ elim (Bool-cases (keys vk_back)) [
    | inl back ↦
        let (cs, e, field) = erase_last-IsField 2 i.buffer h in
        (record i { buffer = cs }, ground (arith, on, back, e), field)
    | inr more ↦ elim (Bool-cases (leb 2 (length i.buffer))) [
      | inl full ↦ (i, ground (arith, on, more, full), h)
      | inr short ↦ (
        record i { buffer = i.buffer ++ typed_digits keys },
        ground (arith, on, more, short),
        digits-IsField 2 i.buffer keys h (ground (arith, short)),
      )
    ]
  ]
]

pub input_key_check-IsTyping :
    (left : ℕ) (keys : Keys) (ui : SignUpUi)
    → IsTyping left ui
    → (v : SignUpUi) × (input_key_check keys ui ≡ some v) × IsTyping left v
unfolding input_key_check
input_key_check-IsTyping left keys ui h =
    let caps = if keys vk_capital then not ui.caps_lock else ui.caps_lock in
    let (id, e, in_place) = press_text-IsPlaced left caps keys ui.id h.id in
    let (ps, f, in_place') = press_text-IsPlaced left caps keys ui.ps h.ps in
    let (age, g, field) = press_age-IsField keys ui.age h.age in
    (
      record { id = id; ps = ps; age = age; caps_lock = caps },
      ground (arith, e, f, g),
      record { id = in_place; ps = in_place'; age = field },
    )
