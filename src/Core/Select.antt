-- ===== src/Core/Select.antt =====
-- Project/CoreLib/ObjectManager.cpp: the part of Update that finds the objects under the mouse, with
-- RectToPoint of Collision.cpp. Comparisons of floats are those of the machine, a parameter. What a call
-- of HitSelect does to the objects that come behind it in the loop is left out.
pub mod Clicks
use network_omok.Base.{ℕ, Bool, true, false, ◌&&◌, List, [], ◌∷◌, if◌then◌else◌}
use network_omok.Core.Input.{KeyState, ks_free, ks_up, ks_down, ks_hold}

-- enum SelectState
pub data SelectState : Type 0 where
  ss_default ss_hover ss_focus ss_active ss_selected : SelectState

module _ {F : Type 0} (leb : F → F → Bool) where
  pub record Rect : Type 0 where
    pub min : F × F
    pub max : F × F

  -- Collision::RectToPoint
  pub rect_to_point : Rect → F × F → Bool
  rect_to_point rt p =
      (leb rt.min.0 p.0 && leb p.0 rt.max.0) && (leb rt.min.1 p.1 && leb p.1 rt.max.1)

  -- An entry of m_selectList, with whether m_selFuncionExe has a function for it.
  pub record Selectable : Type 0 where
    pub select_id : ℕ
    pub ignored : Bool
    pub collision : Rect
    pub select_state : SelectState
    pub has_function : Bool

  -- The state of an object under the mouse, by the left button.
  abbrev state_under : KeyState → SelectState
  state_under ks_free = ss_hover
  state_under ks_down = ss_active
  state_under ks_hold = ss_focus
  state_under ks_up = ss_selected

  abbrev touched : F × F → Selectable → Bool
  touched mouse o = if o.ignored then false else rect_to_point o.collision mouse

  -- The loop over the entries: what becomes of them, and the calls of HitSelect, each by the entry and
  -- the state in which it is called.
  pub update_select : F × F → KeyState → List Selectable → List Selectable × List (ℕ × SelectState)
  unfolding rect_to_point
  update_select mouse button [] = ([], [])
  update_select mouse button (o ∷ os) =
      let rest = update_select mouse button os in
      let hit : Selectable = record o { select_state = state_under button } in
      if touched mouse o
      then (
        hit ∷ rest.0,
        if o.has_function then (o.select_id, hit.select_state) ∷ rest.1 else rest.1,
      )
      else (o ∷ rest.0, rest.1)
