-- ===== src/Client/Dialogs/SignUp.antt =====
-- Project/DXClient/SignUpUI.cpp.
pub mod Inputs
pub mod Accounts
use network_omok.Base.{
  ℕ, ◌+◌, ◌*◌, Bool, true, false, ◌&&◌, ◌||◌, not, Option, none, some, List, [], ◌∷◌, ◌++◌, WString,
  leb, add32, sub32, ◌==◌, if◌then◌else◌, length, ◌>>=◌, ◌>>◌, State, pure,
}
use network_omok.Client.{Client, Action, send_packet}
use network_omok.Wire.{account_packet, message_of}
use network_omok.Client.Dialogs.{
  Keys, vk_back, vk_capital, typed, typed_digits, erase_last, Rect, across, down, click_field,
}

-- An entry of m_inputBuffer, m_pressed and m_writeRect; `left` is a bit pattern.
pub record Input : Type 0 where
  pub buffer : WString
  pub pressed : Bool
  pub left : ℕ

pub record SignUpUi : Type 0 where
  pub id : Input
  pub ps : Input
  pub age : Input
  pub caps_lock : Bool

abbrev new_input : ℕ → Input
new_input left = record { buffer = []; pressed = false; left = left }

-- SignUpUI() and Init, with the place at which the texts begin.
abbrev pub new_sign_up_ui : ℕ → SignUpUi
new_sign_up_ui left = record {
  id = new_input left;
  ps = new_input left;
  age = new_input left;
  caps_lock = false;
}

-- SignUpUI::PressId and SignUpUI::PressPs: the text moves to the left with each character.
pub press_text : Bool → Keys → Input → Option Input
unfolding erase_last
press_text caps keys i =
    let new = typed caps keys in
    if i.pressed
    then (if keys vk_back
        then elim (erase_last i.buffer) [
          | none ↦ none
          | some cs ↦ some (record i {
            buffer = cs;
            left = if length i.buffer == 0 then i.left else add32 i.left 4;
          })
        ]
        else if leb 10 (length i.buffer)
        then some i
        else some (record i { buffer = i.buffer ++ new; left = sub32 i.left (4 * length new) }))
    else some i

-- SignUpUI::PressAge
pub press_age : Keys → Input → Option Input
unfolding erase_last
press_age keys i =
    if i.pressed
    then (if keys vk_back
        then elim (erase_last i.buffer) [ none ↦ none | some cs ↦ some (record i { buffer = cs }) ]
        else if leb 2 (length i.buffer)
        then some i
        else some (record i { buffer = i.buffer ++ typed_digits keys }))
    else some i

-- SignUpUI::InputKeyCheck
pub input_key_check : Keys → SignUpUi → Option SignUpUi
unfolding press_text press_age
input_key_check keys ui =
    let caps = if keys vk_capital then not ui.caps_lock else ui.caps_lock in
    elim (press_text caps keys ui.id) [
      | none ↦ none
      | some id ↦ elim (press_text caps keys ui.ps) [
        | none ↦ none
        | some ps ↦ elim (press_age keys ui.age) [
          | none ↦ none
          | some age ↦ some (record { id = id; ps = ps; age = age; caps_lock = caps })
        ]
      ]
    ]

abbrev id_rect : Rect
id_rect = record { left = 656; top = 362; right = 929; bottom = 400 }

abbrev ps_rect : Rect
ps_rect = record { left = 656; top = 467; right = 929; bottom = 502 }

abbrev age_rect : Rect
age_rect = record { left = 656; top = 575; right = 929; bottom = 612 }

abbrev next_rect : Rect
next_rect = record { left = 726; top = 663; right = 848; bottom = 717 }

-- SignUpUI::CheckIdArea, CheckPsArea and CheckAgeArea
pub check_area : Rect → ℕ × ℕ → Input → Input
unfolding click_field
check_area r click i = record i { pressed = click_field r click i.pressed }

-- SignUpUI::ClickNext, without the message box.
pub click_next : ℕ × ℕ → SignUpUi → Action (Unit {0})
click_next click ui =
    let blank = length ui.id.buffer == 0 || length ui.ps.buffer == 0 || length ui.age.buffer == 0 in
    let request =
      send_packet (message_of (account_packet ui.id.buffer ui.ps.buffer ui.age.buffer)) in
    if across next_rect click.0 && down next_rect click.1
    then (if blank then pure tt else request)
    else pure tt

-- SignUpUI::HitSelect for a click that selects.
pub hit_select : ℕ × ℕ → SignUpUi → Action SignUpUi
unfolding check_area click_next
hit_select click ui = do
  let next : SignUpUi = record ui {
    id = check_area id_rect click ui.id;
    ps = check_area ps_rect click ui.ps;
    age = check_area age_rect click ui.age;
  }
  click_next click next
  pure next
