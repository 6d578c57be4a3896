-- ===== src/Client/Dialogs/Room/Tidy.antt =====
-- Project/DXClient/CreateRoomUI.cpp: the dialog for a new room over any frames and clicks.
use network_omok.Base.{
  ℕ, ◌≡◌, refl, true, Option, none, some, List, [], ◌∷◌, arith, if◌then◌else◌, not, Bool-cases, inl,
  inr,
}
use network_omok.Client.Dialogs.{Keys, vk_capital}
use network_omok.Client.Dialogs.Typing.{IsField, press_field-IsField}
use network_omok.Client.Dialogs.Room.{
  CreateRoomUi, reverse_hide, input_key_check, update, hit_select, hit_cancel,
}

pub data Event : Type 0 where
  frame : Keys → Event
  click : ℕ × ℕ → Event
  room_make : Event
  cancel : Event

pub step : Event → CreateRoomUi → Option CreateRoomUi
unfolding update hit_select reverse_hide hit_cancel
step (frame keys) ui = update keys ui
step (click at) ui = some (hit_select at ui)
step room_make ui = some (reverse_hide ui)
step cancel ui = some (hit_cancel ui)

pub run : List Event → CreateRoomUi → Option CreateRoomUi
run [] ui = some ui
run (e ∷ es) ui = elim (step e ui) [ none ↦ none | some v ↦ run es v ]

-- The fields are in order, and a dialog that is closed has none of a room that was given up.
pub record IsTidy (ui : CreateRoomUi) : Type 0 where
  pub title : IsField 15 ui.title_buffer
  pub ps : IsField 6 ui.ps_buffer
  pub closed : ui.hide ≡ true → (ui.title_buffer ≡ []) × (ui.ps_buffer ≡ [])

empty-IsField : (limit : ℕ) → IsField limit []
empty-IsField limit = record { keys_only = tt; bounded = omega arith }

update-IsTidy :
    (keys : Keys) (ui : CreateRoomUi)
    → IsTidy ui
    → (v : CreateRoomUi) × (update keys ui ≡ some v) × IsTidy v
unfolding update input_key_check
update-IsTidy keys ui h = elim (Bool-cases ui.hide) [
  | inl hidden ↦ (ui, ground (arith, hidden), h)
  | inr open_now ↦
      let caps = if keys vk_capital then not ui.caps_lock else ui.caps_lock in
      let (title, e, field) =
        press_field-IsField 15 ui.press_title caps keys ui.title_buffer h.title in
      let (ps, f, field') = press_field-IsField 6 ui.press_ps caps keys ui.ps_buffer h.ps in
      (
        record ui { caps_lock = caps; title_buffer = title; ps_buffer = ps },
        ground (arith, open_now, e, f),
        record {
          title = field;
          ps = field';
          closed = λ hidden. absurd (ground (arith, hidden, open_now));
        },
      )
]

reverse_hide-IsTidy : (ui : CreateRoomUi) → IsTidy ui → IsTidy (reverse_hide ui)
unfolding reverse_hide
reverse_hide-IsTidy ui h = elim (Bool-cases ui.hide) [
  | inl hidden ↦
      rw hidden (record { title = h.title; ps = h.ps; closed = λ e. absurd (ground (arith, e)) })
  | inr open_now ↦
      rw open_now
        (record { title = empty-IsField 15; ps = empty-IsField 6; closed = λ e. (refl, refl) })
]

step-IsTidy :
    (e : Event) (ui : CreateRoomUi)
    → IsTidy ui
    → (v : CreateRoomUi) × (step e ui ≡ some v) × IsTidy v
unfolding step hit_select hit_cancel
step-IsTidy (frame keys) ui h = update-IsTidy keys ui h
step-IsTidy (click at) ui h =
    (hit_select at ui, refl, record { title = h.title; ps = h.ps; closed = h.closed })
step-IsTidy room_make ui h = (reverse_hide ui, refl, reverse_hide-IsTidy ui h)
step-IsTidy cancel ui h = elim (Bool-cases ui.hide) [
  | inl hidden ↦ (ui, rw hidden, h)
  | inr open_now ↦ (reverse_hide ui, rw open_now, reverse_hide-IsTidy ui h)
]

-- Whatever frames and clicks come to a dialog that is in order: nothing undefined happens, the title
-- and the password stay letters and digits, fewer than 51 and 42 of them, and a dialog that is closed
-- has forgotten both.
pub run-IsTidy :
    (es : List Event) (ui : CreateRoomUi)
    → IsTidy ui
    → (v : CreateRoomUi) × (run es ui ≡ some v) × IsTidy v
unfolding run
run-IsTidy [] ui h = (ui, refl, h)
run-IsTidy (e ∷ es) ui h =
    let (v, went, tidy) = step-IsTidy e ui h in
    let (w, rest, tidy') = run-IsTidy es v tidy in (w, ground (arith, went, rest), tidy')
