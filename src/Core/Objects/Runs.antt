-- ===== src/Core/Objects/Runs.antt =====
-- Project/CoreLib/ObjectManager.cpp over any registrations, deletions, changes of the scene, frames.
use network_omok.Base.{
  ℕ, suc, ◌+◌, ◌<◌, ◌≡◌, inr, refl, Bool, Option, none, some, List, [], ◌∷◌, length, arith,
}
use network_omok.Server.{Address}
use network_omok.Core.Objects.{
  ObjectManager, new_manager, Call, max_list, set_collision, scene_changes, finish_change, deletes,
}
use network_omok.Core.Objects.Registered.{delete_execute-IsRegistered, more-IsRegistered}
use network_omok.Core.Objects.Changes.{
  AllInside, IsInOrder, more-IsInOrder, set_collision-IsInOrder, finish_change-IsInOrder,
}

-- What happens to the manager: the end of a frame comes with the calls of SetCollision in
-- ReSetCollision and in Init of the new scene.
pub data Event : Type 0 where
  collides : Call → Event
  object_deleted : Address → ℕ → Event
  scene_changed : ℕ → Bool → Bool → Bool → Event
  frame_done : List Call → List Call → Event

pub step : Event → ObjectManager → Option ObjectManager
step (collides c) m = set_collision c m
step (object_deleted owner index) m = some (deletes owner index m)
step (scene_changed index del_object init del_cur_object) m =
    some (scene_changes index del_object init del_cur_object m)
step (frame_done reset init) m = finish_change reset init m

pub run : List Event → ObjectManager → Option ObjectManager
run [] m = some m
run (e ∷ es) m = elim (step e m) [ none ↦ none | some n ↦ run es n ]

abbrev IsInside : Event → Type 0
IsInside (collides c) = c.index < max_list
IsInside (object_deleted owner index) = index < max_list
IsInside (scene_changed index del_object init del_cur_object) = index < max_list
IsInside (frame_done reset init) = AllInside reset × AllInside init

abbrev pub AllEventsInside : List Event → Type 0
AllEventsInside [] = Unit {0}
AllEventsInside (e ∷ es) = IsInside e × AllEventsInside es

-- How many calls of SetCollision there are at most.
abbrev calls_of : Event → ℕ
calls_of (collides c) = 1
calls_of (object_deleted owner index) = 0
calls_of (scene_changed index del_object init del_cur_object) = 0
calls_of (frame_done reset init) = length reset + length init

abbrev pub calls : List Event → ℕ
calls [] = 0
calls (e ∷ es) = calls_of e + calls es

step-IsInOrder :
    (e : Event) (n : ℕ) (m : ObjectManager)
    → IsInside e
    → calls_of e + n < 4294967295
    → IsInOrder n m
    → (v : ObjectManager) × (step e m ≡ some v) × IsInOrder (calls_of e + n) v
unfolding step scene_changes deletes
step-IsInOrder (collides c) n m inside small h =
    let (v, e, order) = set_collision-IsInOrder c n m inside (omega arith) h in
    (v, e, more-IsInOrder (suc n) _ v (omega arith) order)
step-IsInOrder (object_deleted owner index) n m inside small h = (
  deletes owner index m,
  refl,
  record {
    collisions =
        more-IsRegistered n _ _ (omega arith)
          (delete_execute-IsRegistered owner index n m.collisions h.collisions);
    selects =
        more-IsRegistered n _ _ (omega arith)
          (delete_execute-IsRegistered owner index n m.selects h.selects);
  },
)
step-IsInOrder (scene_changed index del_object init del_cur_object) n m inside small h = (
  scene_changes index del_object init del_cur_object m,
  refl,
  record {
    collisions = more-IsRegistered n _ _ (omega arith) h.collisions;
    selects = more-IsRegistered n _ _ (omega arith) h.selects;
  },
)
step-IsInOrder (frame_done reset init) n m inside small h =
    finish_change-IsInOrder reset init n m inside.0 inside.1 small h

run_from :
    (es : List Event) (n : ℕ) (m : ObjectManager)
    → AllEventsInside es
    → calls es + n < 4294967295
    → IsInOrder n m
    → (v : ObjectManager) × (run es m ≡ some v) × IsInOrder (calls es + n) v
unfolding run
run_from [] n m inside small h = (m, refl, more-IsInOrder n _ m (omega arith) h)
run_from (e ∷ es) n m inside small h =
    let (v, went, order) = step-IsInOrder e n m inside.0 (omega arith) h in
    let (w, rest, order') = run_from es (calls_of e + n) v inside.1 (omega arith) order in
    (w, ground (arith, went, rest), more-IsInOrder _ _ w (omega arith) order')

new-IsInOrder : IsInOrder 0 new_manager
new-IsInOrder = record {
  collisions = record {
    count = omega arith;
    found = λ i k o e. absurd (ground (arith, e));
    own = λ i o p e. absurd (ground (arith, e));
    fresh = λ i k above. refl;
    given = λ o. inr refl;
  };
  selects = record {
    count = omega arith;
    found = λ i k o e. absurd (ground (arith, e));
    own = λ i o p e. absurd (ground (arith, e));
    fresh = λ i k above. refl;
    given = λ o. inr refl;
  };
}

-- From the start, whatever is registered, deleted, cleared and registered again, in the scenes that
-- there are and with fewer calls of SetCollision than there are ids: nothing undefined happens, each
-- object that is in a scene has its own function there, though the functions of objects that are gone
-- stay, and the id that an object has leads to no function but its own, so that its deletion takes
-- away no other's.
pub run-IsInOrder :
    (es : List Event)
    → AllEventsInside es
    → calls es < 4294967295
    → (v : ObjectManager) × (run es new_manager ≡ some v) × IsInOrder (calls es + 0) v
run-IsInOrder es inside small = run_from es 0 new_manager inside (omega arith) new-IsInOrder
