-- ===== src/Client/Dialogs.antt =====
-- The keyboard and the rectangles as the dialogs of Project/DXClient read them: LoginUI.cpp,
-- SignUpUI.cpp and CreateRoomUI.cpp.
pub mod Events
pub mod Login
pub mod Room
pub mod SignUp
pub mod Typing
use network_omok.Base.{
  ℕ, zero, suc, ◌+◌, Bool, true, false, ◌&&◌, not, Option, none, some, List, [], ◌∷◌, ◌++◌, WString,
  leb, ◌==◌, if◌then◌else◌, length,
}

-- Whether Input::GetPressedKey holds for a key in this frame.
abbrev pub Keys : Type 0
Keys = ℕ → Bool

abbrev pub vk_back : ℕ
vk_back = 8

abbrev pub vk_tab : ℕ
vk_tab = 9

abbrev pub vk_capital : ℕ
vk_capital = 20

-- `for (int i = 0; i < n; ++i) if (GetPressedKey(key + i)) buffer += key + i + shift`
pub pressed_keys : Keys → ℕ → ℕ → ℕ → WString
pressed_keys keys shift key zero = []
pressed_keys keys shift key (suc n) =
    let rest = pressed_keys keys shift (suc key) n in
    if keys key then (key + shift) ∷ rest else rest

-- The ten digits.
abbrev pub typed_digits : Keys → WString
typed_digits keys = pressed_keys keys 0 b'0' 10

-- The letters, small ones unless CAPS LOCK is on, and the digits.
abbrev pub typed : Bool → Keys → WString
typed caps keys = pressed_keys keys (if caps then 0 else 32) b'A' 26 ++ typed_digits keys

-- std::wstring::pop_back, which is undefined on an empty string.
pub pop_back : WString → Option WString
pop_back [] = none
pop_back (c ∷ []) = some []
pop_back (c ∷ d ∷ cs) = elim (pop_back (d ∷ cs)) [ none ↦ none | some ds ↦ some (c ∷ ds) ]

-- `if (buffer.size() > 0) buffer.pop_back();`
pub erase_last : WString → Option WString
unfolding pop_back
erase_last cs = if length cs == 0 then some cs else pop_back cs

-- A RECT by its left, top, right and bottom.
pub record Rect : Type 0 where
  pub left : ℕ
  pub top : ℕ
  pub right : ℕ
  pub bottom : ℕ

abbrev pub across : Rect → ℕ → Bool
across r x = leb r.left x && leb x r.right

abbrev pub down : Rect → ℕ → Bool
down r y = leb r.top y && leb y r.bottom

-- What a click does to the flag of an input field: it turns over on a click in the rectangle, and is
-- cleared by one above or below it. A click hits the dialog, so it has no negative coordinates.
pub click_field : Rect → ℕ × ℕ → Bool → Bool
click_field r click flag =
    if across r click.0 then (if down r click.1 then not flag else false) else flag

-- A field that takes up to `limit` letters and digits, while it is selected: PressTitle and PressPs of
-- CreateRoomUI.cpp, which are the same but for the limit.
pub press_field : ℕ → Bool → Bool → Keys → WString → Option WString
unfolding erase_last
press_field limit selected caps keys cs =
    if selected
    then (if keys vk_back
        then erase_last cs
        else if leb limit (length cs)
        then some cs
        else some (cs ++ typed caps keys))
    else some cs
