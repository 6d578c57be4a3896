-- ===== src/Core/Select/Clicks.antt =====
-- Project/CoreLib/ObjectManager.cpp: which objects a click selects.
use network_omok.Base.{
  ℕ, ◌≡◌, ◌∙◌, refl, ap, Bool, true, false, ◌&&◌, List, [], ◌∷◌, if◌then◌else◌, arith,
}
use network_omok.Core.Input.{
  KeyState, ks_free, ks_up, ks_down, ks_hold, vk_lbutton, get_mouse_lbutton_state,
}
use network_omok.Core.Input.History.{after, history, seen, lbutton-seen}
use network_omok.Core.Select.{
  SelectState, ss_default, ss_hover, ss_focus, ss_active, ss_selected, rect_to_point, Selectable,
  update_select,
}

-- The entries whose HitSelect is called with SS_SELECTED.
abbrev pub selected : List (ℕ × SelectState) → List ℕ
selected [] = []
selected ((id, ss_selected) ∷ calls) = id ∷ selected calls
selected ((id, ss_default) ∷ calls) = selected calls
selected ((id, ss_hover) ∷ calls) = selected calls
selected ((id, ss_focus) ∷ calls) = selected calls
selected ((id, ss_active) ∷ calls) = selected calls

-- The button has been let go in the last frame: it was down in the one before.
abbrev pub let_go : List Bool → Bool
let_go (false ∷ true ∷ past) = true
let_go (false ∷ false ∷ past) = false
let_go (false ∷ []) = false
let_go (true ∷ past) = false
let_go [] = false

abbrev is_up : KeyState → Bool
is_up ks_up = true
is_up ks_free = false
is_up ks_down = false
is_up ks_hold = false

seen-let_go : (past : List Bool) → is_up (seen past) ≡ let_go past
seen-let_go [] = refl
seen-let_go (true ∷ []) = refl
seen-let_go (true ∷ true ∷ past) = refl
seen-let_go (true ∷ false ∷ []) = refl
seen-let_go (true ∷ false ∷ true ∷ past) = refl
seen-let_go (true ∷ false ∷ false ∷ past) = refl
seen-let_go (false ∷ []) = refl
seen-let_go (false ∷ true ∷ past) = refl
seen-let_go (false ∷ false ∷ past) = refl

module _ {F : Type 0} (leb : F → F → Bool) where
  -- The entries under the mouse that are not ignored and have a function.
  abbrev pub under : F × F → List (Selectable leb) → List ℕ
  under mouse [] = []
  under mouse (o ∷ os) =
      if o.ignored
      then under mouse os
      else if rect_to_point leb o.collision mouse && o.has_function
      then o.select_id ∷ under mouse os
      else under mouse os

  update_select-selected :
      (mouse : F × F) (button : KeyState) (os : List (Selectable leb))
      → selected (update_select leb mouse button os).1
        ≡ (if is_up button then under mouse os else [])
  unfolding update_select
  update_select-selected mouse ks_up [] = refl
  update_select-selected mouse ks_free [] = refl
  update_select-selected mouse ks_down [] = refl
  update_select-selected mouse ks_hold [] = refl
  update_select-selected mouse ks_up (o ∷ os) =
      ground (arith, update_select-selected mouse ks_up os)
  update_select-selected mouse ks_free (o ∷ os) =
      ground (arith, update_select-selected mouse ks_free os)
  update_select-selected mouse ks_down (o ∷ os) =
      ground (arith, update_select-selected mouse ks_down os)
  update_select-selected mouse ks_hold (o ∷ os) =
      ground (arith, update_select-selected mouse ks_hold os)

  -- Behind any frames, at least one: HitSelect is called with SS_SELECTED exactly for the objects
  -- under the mouse that are not ignored and have a function, in the order of the list, if the left
  -- button has been let go in the last frame, and else for none.
  pub update_select-Clicked :
      (start : ℕ → KeyState) (down : ℕ → Bool) (past : List (ℕ → Bool)) (mouse : F × F)
      (os : List (Selectable leb))
      → selected
          (update_select leb mouse (get_mouse_lbutton_state (after start (down ∷ past))) os).1
        ≡ (if let_go (history vk_lbutton (down ∷ past)) then under mouse os else [])
  update_select-Clicked start down past mouse os =
      update_select-selected mouse (get_mouse_lbutton_state (after start (down ∷ past))) os
      ∙ ap (λ up. if up then under mouse os else [])
          (ap is_up (lbutton-seen start down past) ∙ seen-let_go (history vk_lbutton (down ∷ past)))
