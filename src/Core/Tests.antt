-- ===== src/Core/Tests.antt =====
-- The keyboard, the objects under the mouse and those of the scenes at concrete frames.
use network_omok.Base.{
  some, ◌+◌, ℕ, ◌≡◌, Bool, true, false, List, [], ◌∷◌, leb, ◌==◌, if◌then◌else◌, arith,
}
use network_omok.Core.Input.{
  KeyState, ks_free, vk_lbutton, get_mouse_lbutton_state, get_pressed_key,
}
use network_omok.Core.Input.History.{after, history, seen, fresh, after-seen}
use network_omok.Core.Objects.{ObjectManager, new_manager}
use network_omok.Core.Objects.Changes.{IsInOrder}
use network_omok.Core.Objects.Runs.{
  collides, object_deleted, scene_changed, frame_done, Event, run, calls, run-IsInOrder,
}
use network_omok.Core.Select.{ss_default, Rect, Selectable, update_select}
use network_omok.Core.Select.Clicks.{selected, let_go, under, update_select-Clicked}

abbrev nowhere : ℕ → KeyState
nowhere i = ks_free

abbrev pressing : ℕ → ℕ → Bool
pressing key k = k == key

abbrev idle : ℕ → Bool
idle k = false

-- The key A is down, let go, and down again in the frame behind that, the last frame first.
abbrev twice : List (ℕ → Bool)
twice = pressing b'A' ∷ idle ∷ pressing b'A' ∷ []

after-seen_example :
    ((after nowhere twice).key_state b'A' ≡ seen (history b'A' twice))
    × (get_pressed_key (after nowhere twice) b'A' ≡ fresh (history b'A' twice))
after-seen_example = after-seen nowhere twice b'A' (ground arith)

abbrev square : ℕ → ℕ → Rect leb
square from to = record { min = (from, from); max = (to, to) }

-- Two objects that lie over each other, one that ignores the mouse, and one elsewhere.
abbrev objects : List (Selectable leb)
objects =
    record {
      select_id = 0;
      ignored = false;
      collision = square 0 10;
      select_state = ss_default;
      has_function = true;
    }
    ∷ record {
      select_id = 1;
      ignored = true;
      collision = square 0 10;
      select_state = ss_default;
      has_function = true;
    }
    ∷ record {
      select_id = 2;
      ignored = false;
      collision = square 5 9;
      select_state = ss_default;
      has_function = true;
    }
    ∷ record {
      select_id = 3;
      ignored = false;
      collision = square 20 30;
      select_state = ss_default;
      has_function = true;
    }
    ∷ []

update_select-Clicked_example :
    selected
      (update_select leb
        (6, 7)
        (get_mouse_lbutton_state (after nowhere (idle ∷ pressing 1 ∷ [])))
        objects).1
    ≡ (if let_go (history vk_lbutton (idle ∷ pressing 1 ∷ []))
        then under leb (6, 7) objects
        else [])
update_select-Clicked_example =
    update_select-Clicked leb nowhere idle (pressing 1 ∷ []) (6, 7) objects

-- Two objects in the scene 0, of which one is deleted; a change to the scene 1, which deletes the
-- others and registers the object 7 twice, for collisions too.
abbrev scene_events : List Event
scene_events =
    collides (record { owner = 5; col_type = 2; sel_type = 1; index = 0 })
    ∷ collides (record { owner = 6; col_type = 2; sel_type = 1; index = 0 })
    ∷ object_deleted 5 0
    ∷ scene_changed 1 true true false
    ∷ frame_done [] (
        record { owner = 7; col_type = 2; sel_type = 1; index = 1 }
        ∷ record { owner = 7; col_type = 0; sel_type = 1; index = 1 }
        ∷ [])
    ∷ []

run-IsInOrder_example :
    (v : ObjectManager) × (run scene_events new_manager ≡ some v)
    × IsInOrder (calls scene_events + 0) v
run-IsInOrder_example =
    run-IsInOrder scene_events
      (
        ground arith,
        (
          ground arith,
          (ground arith, (ground arith, ((tt, (ground arith, (ground arith, tt))), tt))),
        ),
      )
      (ground arith)
