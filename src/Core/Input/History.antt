-- ===== src/Core/Input/History.antt =====
-- Project/CoreLib/Input.cpp: the state of a key, by what it was in the last three frames.
use network_omok.Base.{
  not, ℕ, zero, suc, ◌+◌, ◌<◌, ◌≤◌, ◌≡◌, ◌∙◌, refl, ap, Bool, true, false, List, [], ◌∷◌, map, ◌==◌,
  if◌then◌else◌, arith, Bool-cases, inl, inr,
}
use network_omok.Core.Input.{
  KeyState, ks_free, ks_up, ks_down, ks_hold, Input, init, key_step, pressed_step, update_keys,
  update, max_key, vk_lbutton, get_pressed_key, get_mouse_lbutton_state,
}

-- The input behind some frames, the last one first.
pub after : (ℕ → KeyState) → List (ℕ → Bool) → Input
after mouse [] = init mouse
after mouse (down ∷ past) = update down (after mouse past)

-- Whether a key was down in the frames.
abbrev pub history : ℕ → List (ℕ → Bool) → List Bool
history key frames = map (λ down. down key) frames

-- The state of a key by its history, the last frame first: it counts as pressed when it is down behind
-- two frames in which it was not, or at the beginning.
abbrev pub seen : List Bool → KeyState
seen [] = ks_free
seen (true ∷ []) = ks_down
seen (true ∷ true ∷ past) = ks_hold
seen (true ∷ false ∷ []) = ks_down
seen (true ∷ false ∷ true ∷ past) = ks_hold
seen (true ∷ false ∷ false ∷ past) = ks_down
seen (false ∷ []) = ks_free
seen (false ∷ true ∷ past) = ks_up
seen (false ∷ false ∷ past) = ks_free

key_step-seen : (down : Bool) (past : List Bool) → key_step down (seen past) ≡ seen (down ∷ past)
unfolding key_step
key_step-seen true [] = refl
key_step-seen true (true ∷ []) = refl
key_step-seen true (true ∷ true ∷ past) = refl
key_step-seen true (true ∷ false ∷ []) = refl
key_step-seen true (true ∷ false ∷ true ∷ past) = refl
key_step-seen true (true ∷ false ∷ false ∷ past) = refl
key_step-seen true (false ∷ []) = refl
key_step-seen true (false ∷ true ∷ past) = refl
key_step-seen true (false ∷ false ∷ past) = refl
key_step-seen false [] = refl
key_step-seen false (true ∷ []) = refl
key_step-seen false (true ∷ true ∷ past) = refl
key_step-seen false (true ∷ false ∷ []) = refl
key_step-seen false (true ∷ false ∷ true ∷ past) = refl
key_step-seen false (true ∷ false ∷ false ∷ past) = refl
key_step-seen false (false ∷ []) = refl
key_step-seen false (false ∷ true ∷ past) = refl
key_step-seen false (false ∷ false ∷ past) = refl

-- The loop leaves the keys in front of it alone.
update_keys-below :
    (down : ℕ → Bool) (n key k : ℕ) (s : Input)
    → k < key
    → (update_keys down key n s).key_state k ≡ s.key_state k
unfolding update_keys
update_keys-below down zero key k s h = refl
update_keys-below down (suc n) key k s h =
    update_keys-below down n (suc key) k _ (omega arith) ∙ ground arith

update_keys-in :
    (down : ℕ → Bool) (n key k : ℕ) (s : Input)
    → key ≤ k
    → k < key + n
    → (update_keys down key n s).key_state k ≡ key_step (down k) (s.key_state k)
unfolding update_keys
update_keys-in down zero key k s low high = absurd (omega arith)
update_keys-in down (suc n) key k s low high = elim (Bool-cases (k == key)) [
  | inl here ↦
      let next : Input = record s {
        key_state = λ j. if j == key then key_step (down key) (s.key_state key) else s.key_state j;
        pressed = pressed_step (down key) (s.key_state key) s.pressed;
      } in
      update_keys-below down n (suc key) k next (ground (arith, here)) ∙ ground (arith, here)
  | inr behind ↦
      let next : Input = record s {
        key_state = λ j. if j == key then key_step (down key) (s.key_state key) else s.key_state j;
        pressed = pressed_step (down key) (s.key_state key) s.pressed;
      } in
      update_keys-in down n (suc key) k next (ground (arith, behind)) (omega arith)
      ∙ ap (key_step (down k)) (ground (arith, behind))
]

update-key :
    (down : ℕ → Bool) (k : ℕ) (s : Input)
    → k < max_key
    → (update down s).key_state k ≡ key_step (down k) (s.key_state k)
unfolding update
update-key down k s h = update_keys-in down max_key 0 k s (omega arith) (omega arith)

lbutton_of :
    (down : ℕ → Bool) (s : Input)
    → get_mouse_lbutton_state (update down s) ≡ (update down s).key_state vk_lbutton
unfolding update
lbutton_of down s = refl

keys-seen :
    (mouse : ℕ → KeyState) (frames : List (ℕ → Bool)) (key : ℕ)
    → key < max_key
    → (after mouse frames).key_state key ≡ seen (history key frames)
unfolding after
keys-seen mouse [] key h = refl
keys-seen mouse (down ∷ past) key h =
    update-key down key (after mouse past) h
    ∙ (ap (key_step (down key)) (keys-seen mouse past key h)
        ∙ key_step-seen (down key) (history key past))

-- A key has just been pressed: it is down, and was not in the two frames before, if there were any.
abbrev pub fresh : List Bool → Bool
fresh [] = false
fresh (false ∷ past) = false
fresh (true ∷ []) = true
fresh (true ∷ true ∷ past) = false
fresh (true ∷ false ∷ []) = true
fresh (true ∷ false ∷ down ∷ past) = not down

abbrev is_down : KeyState → Bool
is_down ks_free = false
is_down ks_up = false
is_down ks_down = true
is_down ks_hold = false

seen-fresh : (past : List Bool) → is_down (seen past) ≡ fresh past
seen-fresh [] = refl
seen-fresh (true ∷ []) = refl
seen-fresh (true ∷ true ∷ past) = refl
seen-fresh (true ∷ false ∷ []) = refl
seen-fresh (true ∷ false ∷ true ∷ past) = refl
seen-fresh (true ∷ false ∷ false ∷ past) = refl
seen-fresh (false ∷ []) = refl
seen-fresh (false ∷ true ∷ past) = refl
seen-fresh (false ∷ false ∷ past) = refl

pressed-is_down : (s : Input) (key : ℕ) → get_pressed_key s key ≡ is_down (s.key_state key)
unfolding get_pressed_key
pressed-is_down s key = same (s.key_state key)
  where
    same : (k : KeyState) → elim k as (λ _. Bool) [ ks_down ↦ true | _ ↦ false ] ≡ is_down k
    same ks_free = refl
    same ks_up = refl
    same ks_down = refl
    same ks_hold = refl

-- After any frames, each key is in the state that its history gives, released in the first frame in
-- which it is not down any more, and so on; and GetPressedKey holds for it exactly when it is down and
-- was not in the two frames before, if there were any: a press right behind a release does not count.
pub after-seen :
    (mouse : ℕ → KeyState) (frames : List (ℕ → Bool)) (key : ℕ)
    → key < max_key
    → ((after mouse frames).key_state key ≡ seen (history key frames))
      × (get_pressed_key (after mouse frames) key ≡ fresh (history key frames))
after-seen mouse frames key h = (
  keys-seen mouse frames key h,
  pressed-is_down (after mouse frames) key
      ∙ (ap is_down (keys-seen mouse frames key h) ∙ seen-fresh (history key frames)),
)

-- So is the left button of the mouse, once there has been a frame.
pub lbutton-seen :
    (mouse : ℕ → KeyState) (down : ℕ → Bool) (past : List (ℕ → Bool))
    → get_mouse_lbutton_state (after mouse (down ∷ past)) ≡ seen (history vk_lbutton (down ∷ past))
unfolding after
lbutton-seen mouse down past =
    lbutton_of down (after mouse past) ∙ keys-seen mouse (down ∷ past) vk_lbutton (omega arith)
