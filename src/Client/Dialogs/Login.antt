-- ===== src/Client/Dialogs/Login.antt =====
-- Project/DXClient/LoginUI.cpp.
pub mod Fields
pub mod Run
use network_omok.Base.{
  ℕ, ◌+◌, Bool, true, false, ◌&&◌, ◌||◌, not, Option, none, some, List, [], ◌∷◌, ◌++◌, map, WString,
  leb, ◌==◌, if◌then◌else◌, length, ◌>>=◌, ◌>>◌, State, pure, modify, undefined,
}
use network_omok.Client.{Client, Action, send_packet}
use network_omok.Wire.{login_packet, message_of}
use network_omok.Client.Dialogs.{
  Keys, vk_back, vk_tab, vk_capital, typed, pop_back, erase_last, Rect, across, down, click_field,
}

pub record LoginUi : Type 0 where
  pub id_buffer : WString
  pub ps_buffer : WString
  pub ps_secret_buffer : WString
  pub id_pressed : Bool
  pub ps_pressed : Bool
  pub caps_lock : Bool

-- LoginUI(), with CAPS LOCK as it may be: m_capsLock is not set there.
abbrev pub new_login_ui : Bool → LoginUi
new_login_ui caps = record {
  id_buffer = [];
  ps_buffer = [];
  ps_secret_buffer = [];
  id_pressed = false;
  ps_pressed = false;
  caps_lock = caps;
}

-- LoginUI::PressId
pub press_id : Keys → LoginUi → Option LoginUi
unfolding erase_last
press_id keys ui =
    let erased : Option LoginUi = elim (erase_last ui.id_buffer) [
      | none ↦ none
      | some id ↦ some (record ui { id_buffer = id })
    ] in
    if ui.id_pressed
    then (if keys vk_back
        then erased
        else if leb 10 (length ui.id_buffer)
        then some ui
        else if keys vk_tab
        then some (record ui { id_pressed = false; ps_pressed = true })
        else some (record ui { id_buffer = ui.id_buffer ++ typed ui.caps_lock keys }))
    else some ui

-- The two pop_back of LoginUI::PressPs.
erase_ps : LoginUi → Option LoginUi
unfolding pop_back
erase_ps ui = elim (pop_back ui.ps_buffer) [
  | none ↦ none
  | some ps ↦ elim (pop_back ui.ps_secret_buffer) [
    | none ↦ none
    | some secret ↦ some (record ui { ps_buffer = ps; ps_secret_buffer = secret })
  ]
]

-- LoginUI::PressPs
pub press_ps : Keys → LoginUi → Option LoginUi
unfolding erase_ps
press_ps keys ui =
    let new = typed ui.caps_lock keys in
    if ui.ps_pressed
    then (if keys vk_back
        then (if length ui.ps_buffer == 0 then some ui else erase_ps ui)
        else if leb 10 (length ui.ps_buffer)
        then some ui
        else some (record ui {
          ps_buffer = ui.ps_buffer ++ new;
          ps_secret_buffer = ui.ps_secret_buffer ++ map (λ c. b'*') new;
        }))
    else some ui

-- LoginUI::InputKeyCheck
unfoldable pub input_key_check : Keys → LoginUi → Option LoginUi
unfolding press_id press_ps
input_key_check keys ui =
    let caps : LoginUi = record ui {
      caps_lock = if keys vk_capital then not ui.caps_lock else ui.caps_lock;
    } in
    elim (press_id keys caps) [ none ↦ none | some v ↦ press_ps keys v ]

abbrev id_rect : Rect
id_rect = record { left = 694; top = 490; right = 900; bottom = 525 }

abbrev ps_rect : Rect
ps_rect = record { left = 694; top = 561; right = 900; bottom = 593 }

abbrev pub account_rect : Rect
account_rect = record { left = 665; top = 692; right = 776; bottom = 730 }

abbrev pub login_rect : Rect
login_rect = record { left = 812; top = 692; right = 926; bottom = 730 }

-- LoginUI::CheckIdUIArea and LoginUI::CheckPsUIArea
pub check_areas : ℕ × ℕ → LoginUi → LoginUi
unfolding click_field
check_areas click ui = record ui {
  id_pressed = click_field id_rect click ui.id_pressed;
  ps_pressed = click_field ps_rect click ui.ps_pressed;
}

-- LoginUI::CheckLoginUIArea, without the message box.
pub check_login_area : ℕ × ℕ → LoginUi → Action (Unit {0})
check_login_area click ui =
    let request = (do
      send_packet (message_of (login_packet ui.id_buffer ui.ps_buffer))
      modify (λ c. record c { is_login_scene = false })) in
    if across login_rect click.0 && down login_rect click.1
    then (if length ui.id_buffer == 0 || length ui.ps_buffer == 0 then pure tt else request)
    else pure tt

-- LoginUI::HitSelect for a click that selects. CheckCreateAccountUIArea deletes the scene and with it
-- this dialog, of which CheckLoginUIArea reads a rectangle behind that: undefined.
unfoldable pub hit_select : ℕ × ℕ → LoginUi → Action LoginUi
unfolding check_areas check_login_area
hit_select click ui = do
  let next = check_areas click ui
  (if across account_rect click.0 && down account_rect click.1
      then undefined
      else check_login_area click next)
  pure next
