-- ===== src/Client/Dialogs/Login/Fields.antt =====
-- Project/DXClient/LoginUI.cpp: what the keys do to the fields of the login dialog.
use network_omok.Base.{
  ◌≡◌, true, false, some, ◌++◌, map, length, length-append, arith, leb, ◌==◌, Bool-cases, inl, inr,
  if◌then◌else◌, not,
}
use network_omok.Client.Dialogs.{Keys, typed, vk_back, vk_tab, vk_capital}
use network_omok.Client.Dialogs.Typing.{
  IsField, typed-IsField, length-map, erase_last-IsField, pop_back-AllKeys, pop_back-some,
}
use network_omok.Client.Dialogs.Login.{LoginUi, press_id, erase_ps, press_ps, input_key_check}

pub record IsTyping (ui : LoginUi) : Type 0 where
  pub id : IsField 10 ui.id_buffer
  pub ps : IsField 10 ui.ps_buffer
  pub stars : length ui.ps_secret_buffer ≡ length ui.ps_buffer

press_id-IsTyping :
    (keys : Keys) (ui : LoginUi)
    → IsTyping ui
    → (v : LoginUi) × (press_id keys ui ≡ some v) × IsTyping v
unfolding press_id
press_id-IsTyping keys ui h = elim (Bool-cases ui.id_pressed) [
  | inr idle ↦ (ui, ground (arith, idle), h)
  | inl on ↦ elim (Bool-cases (keys vk_back)) [
    | inl back ↦
        let (id, e, field) = erase_last-IsField 10 ui.id_buffer h.id in
        (
          record ui { id_buffer = id },
          ground (arith, on, back, e),
          record { id = field; ps = h.ps; stars = h.stars },
        )
    | inr more ↦ elim (Bool-cases (leb 10 (length ui.id_buffer))) [
      | inl full ↦ (ui, ground (arith, on, more, full), h)
      | inr short ↦ elim (Bool-cases (keys vk_tab)) [
        | inl tab ↦ (
          record ui { id_pressed = false; ps_pressed = true },
          ground (arith, on, more, short, tab),
          record { id = h.id; ps = h.ps; stars = h.stars },
        )
        | inr typing ↦ (
          record ui { id_buffer = ui.id_buffer ++ _ },
          ground (arith, on, more, short, typing),
          record {
            id = typed-IsField 10 ui.id_buffer ui.caps_lock keys h.id (ground (arith, short));
            ps = h.ps;
            stars = h.stars;
          },
        )
      ]
    ]
  ]
]

press_ps-IsTyping :
    (keys : Keys) (ui : LoginUi)
    → IsTyping ui
    → (v : LoginUi) × (press_ps keys ui ≡ some v) × IsTyping v
unfolding press_ps erase_ps
press_ps-IsTyping keys ui h = elim (Bool-cases ui.ps_pressed) [
  | inr idle ↦ (ui, ground (arith, idle), h)
  | inl on ↦ elim (Bool-cases (keys vk_back)) [
    | inl back ↦ elim (Bool-cases (length ui.ps_buffer == 0)) [
      | inl empty ↦ (ui, ground (arith, on, back, empty), h)
      | inr more ↦
          let stars = h.stars in
          let field = h.ps in
          let (ps, e, keys_only, size) =
            pop_back-AllKeys ui.ps_buffer (ground arith) field.keys_only in
          let (secret, f, size') = pop_back-some ui.ps_secret_buffer (ground arith) in
          let b = field.bounded in
          (
            record ui { ps_buffer = ps; ps_secret_buffer = secret },
            ground (arith, on, back, more, e, f),
            record {
              id = h.id;
              ps = record { keys_only = keys_only; bounded = omega (arith, size) };
              stars = omega (arith, size, size');
            },
          )
    ]
    | inr more ↦ elim (Bool-cases (leb 10 (length ui.ps_buffer))) [
      | inl full ↦ (ui, ground (arith, on, more, full), h)
      | inr short ↦
          let new = typed ui.caps_lock keys in
          let stars = h.stars in
          (
            record ui {
              ps_buffer = ui.ps_buffer ++ new;
              ps_secret_buffer = ui.ps_secret_buffer ++ map (λ c. b'*') new;
            },
            ground (arith, on, more, short),
            record {
              id = h.id;
              ps = typed-IsField 10 ui.ps_buffer ui.caps_lock keys h.ps (ground (arith, short));
              stars = omega (
                arith,
                length-append ui.ps_buffer new,
                length-append ui.ps_secret_buffer (map (λ c. b'*') new),
                length-map new,
              );
            },
          )
    ]
  ]
]

pub input_key_check-IsTyping :
    (keys : Keys) (ui : LoginUi)
    → IsTyping ui
    → (v : LoginUi) × (input_key_check keys ui ≡ some v) × IsTyping v
unfolding input_key_check
input_key_check-IsTyping keys ui h =
    let caps = if keys vk_capital then not ui.caps_lock else ui.caps_lock in
    let (v, e, typing) =
      press_id-IsTyping keys (record ui { caps_lock = caps })
        (record { id = h.id; ps = h.ps; stars = h.stars }) in
    let (w, f, typing') = press_ps-IsTyping keys v typing in (w, ground (arith, e, f), typing')
