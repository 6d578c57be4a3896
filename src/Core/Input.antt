-- ===== src/Core/Input.antt =====
-- Project/CoreLib/Input.cpp and Input.h. What GetAsyncKeyState says of each key in a frame is an
-- argument; m_getKey, which nothing reads, is left out.
pub mod History
use network_omok.Base.{ℕ, zero, suc, Bool, true, false, ◌==◌, if◌then◌else◌, List, [], ◌∷◌}

-- enum KeyState
pub data KeyState : Type 0 where
  ks_free ks_up ks_down ks_hold : KeyState

pub record Input : Type 0 where
  pub key_state : ℕ → KeyState
  pub mouse_state : ℕ → KeyState
  pub pressed : Bool

-- Input() and Input::Init, with whatever is in m_mouseState.
abbrev pub init : (ℕ → KeyState) → Input
init mouse = record { key_state = λ key. ks_free; mouse_state = mouse; pressed = false }

-- The body of the loop of Input::Update, for a key that is down or not.
pub key_step : Bool → KeyState → KeyState
key_step true ks_free = ks_down
key_step true ks_up = ks_hold
key_step true ks_down = ks_hold
key_step true ks_hold = ks_hold
key_step false ks_free = ks_free
key_step false ks_up = ks_free
key_step false ks_down = ks_up
key_step false ks_hold = ks_up

-- What the body does to m_pressed.
abbrev pub pressed_step : Bool → KeyState → Bool → Bool
pressed_step true ks_free pressed = true
pressed_step true ks_up pressed = pressed
pressed_step true ks_down pressed = pressed
pressed_step true ks_hold pressed = pressed
pressed_step false ks_free pressed = false
pressed_step false ks_up pressed = false
pressed_step false ks_down pressed = pressed
pressed_step false ks_hold pressed = pressed

-- The loop, for `n` keys from one on.
pub update_keys : (ℕ → Bool) → ℕ → ℕ → Input → Input
unfolding key_step
update_keys down key zero s = s
update_keys down key (suc n) s = update_keys down (suc key) n (record s {
  key_state = λ k. if k == key then key_step (down key) (s.key_state key) else s.key_state k;
  pressed = pressed_step (down key) (s.key_state key) s.pressed;
})

abbrev pub vk_lbutton : ℕ
vk_lbutton = 1

abbrev vk_rbutton : ℕ
vk_rbutton = 2

abbrev vk_mbutton : ℕ
vk_mbutton = 4

abbrev pub max_key : ℕ
max_key = 256

-- Input::Update
pub update : (ℕ → Bool) → Input → Input
unfolding update_keys
update down s =
    let t = update_keys down 0 max_key s in
    record t {
      mouse_state = λ i.
          if i == 0
          then t.key_state vk_lbutton
          else if i == 1
          then t.key_state vk_rbutton
          else if i == 2
          then t.key_state vk_mbutton
          else t.mouse_state i;
    }

-- Input::GetPressedKey
pub get_pressed_key : Input → ℕ → Bool
get_pressed_key s key = elim (s.key_state key) [ ks_down ↦ true | _ ↦ false ]

-- Input::GetMouseLButtonState
abbrev pub get_mouse_lbutton_state : Input → KeyState
get_mouse_lbutton_state s = s.mouse_state 0
