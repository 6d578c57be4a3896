-- ===== src/Core/Objects/Changes.antt =====
-- Project/CoreLib/ObjectManager.cpp: registrations and changes of the scene, and what they keep.
use network_omok.Base.{
  ℕ, suc, ◌+◌, ◌<◌, ◌≤◌, ◌≡◌, inl, inr, refl, subst, ap, ◌∙◌, Bool, true, false, ◌&&◌, Option, none,
  some, List, [], ◌∷◌, leb, if◌then◌else◌, length, arith, Bool-cases, not,
}
use network_omok.Core.Objects.{
  register, ignore, ObjectManager, Call, max_list, set_collision, set_collisions, change_now,
  finish_change, clear_scene,
}
use network_omok.Core.Objects.Registered.{
  IsRegistered, register-IsRegistered, clear-IsRegistered, more-IsRegistered,
}

-- All scenes are among those that there are.
abbrev pub AllInside : List Call → Type 0
AllInside [] = Unit {0}
AllInside (c ∷ cs) = (c.index < max_list) × AllInside cs

pub record IsInOrder (n : ℕ) (m : ObjectManager) : Type 0 where
  pub collisions : IsRegistered n m.collisions
  pub selects : IsRegistered n m.selects

pub more-IsInOrder : (n k : ℕ) (m : ObjectManager) → n ≤ k → IsInOrder n m → IsInOrder k m
more-IsInOrder n k m more h = record {
  collisions = more-IsRegistered n k m.collisions more h.collisions;
  selects = more-IsRegistered n k m.selects more h.selects;
}

pub set_collision-IsInOrder :
    (c : Call) (n : ℕ) (m : ObjectManager)
    → c.index < max_list
    → n < 4294967295
    → IsInOrder n m
    → (v : ObjectManager) × (set_collision c m ≡ some v) × IsInOrder (suc n) v
unfolding set_collision
set_collision-IsInOrder c n m inside small h =
    elim (Bool-cases (leb c.col_type ignore && leb c.sel_type ignore)) [
      | inr wrong ↦ (m, ground (arith, wrong), more-IsInOrder n (suc n) m (omega arith) h)
      | inl right ↦ (
        record m {
          collisions = register c.col_type c.index c.owner m.collisions;
          selects = register c.sel_type c.index c.owner m.selects;
        },
        ground (arith, right),
        record {
          collisions =
              register-IsRegistered c.col_type c.index n c.owner m.collisions small h.collisions;
          selects = register-IsRegistered c.sel_type c.index n c.owner m.selects small h.selects;
        },
      )
    ]

set_collisions-IsInOrder :
    (cs : List Call) (n : ℕ) (m : ObjectManager)
    → AllInside cs
    → length cs + n < 4294967295
    → IsInOrder n m
    → (v : ObjectManager) × (set_collisions cs m ≡ some v) × IsInOrder (length cs + n) v
unfolding set_collisions
set_collisions-IsInOrder [] n m inside small h = (m, refl, more-IsInOrder n _ m (omega arith) h)
set_collisions-IsInOrder (c ∷ cs) n m inside small h =
    let (v, e, order) = set_collision-IsInOrder c n m inside.0 (omega arith) h in
    let (w, f, order') = set_collisions-IsInOrder cs (suc n) v inside.1 (omega arith) order in
    (w, ground (arith, e, f), subst (λ k. IsInOrder k w) (omega arith) order')

clear_scene-IsInOrder :
    (index n : ℕ) (m : ObjectManager) → IsInOrder n m → IsInOrder n (clear_scene index m)
clear_scene-IsInOrder index n m h = record {
  collisions = clear-IsRegistered index n m.collisions h.collisions;
  selects = clear-IsRegistered index n m.selects h.selects;
}

-- Calls of SetCollision that happen only in some case.
calls_if :
    (doing : Bool) (cs : List Call) (n : ℕ) (m o : ObjectManager)
    → AllInside cs
    → length cs + n < 4294967295
    → IsInOrder n m
    → IsInOrder n o
    → (v : ObjectManager) × ((if doing then set_collisions cs m else some o) ≡ some v)
      × IsInOrder (length cs + n) v
calls_if true cs n m o inside small h k = set_collisions-IsInOrder cs n m inside small h
calls_if false cs n m o inside small h k = (o, refl, more-IsInOrder n _ o (omega arith) k)

clear_if :
    (doing : Bool) (index n : ℕ) (m : ObjectManager)
    → IsInOrder n m
    → IsInOrder n (if doing then clear_scene index m else m)
clear_if true index n m h = clear_scene-IsInOrder index n m h
clear_if false index n m h = h

-- One thing that returns behind another.
returns_then :
    (x : Option ObjectManager) (f : ObjectManager → Option ObjectManager) (u v : ObjectManager)
    → x ≡ some u
    → f u ≡ some v
    → elim x as (λ _. Option ObjectManager) [ none ↦ none | some n ↦ f n ] ≡ some v
returns_then x f u v e h =
    ap (λ y. elim y as (λ _. Option ObjectManager) [ none ↦ none | some n ↦ f n ]) e ∙ h

change_now-IsInOrder :
    (reset init : List Call) (n : ℕ) (m : ObjectManager)
    → AllInside reset
    → AllInside init
    → length reset + length init + n < 4294967295
    → IsInOrder n m
    → (v : ObjectManager) × (change_now reset init m ≡ some v)
      × IsInOrder (length reset + length init + n) v
unfolding change_now
change_now-IsInOrder reset init n m inside inside' small h =
    let gone = if m.is_prev_delete then clear_scene m.prev_scene_index m else m in
    let left = clear_if m.is_prev_delete m.prev_scene_index n m h in
    let (u, e, order) =
      calls_if m.is_cur_delete reset n (clear_scene m.cur_scene_index gone) gone inside
        (omega arith) (clear_scene-IsInOrder m.cur_scene_index n gone left) left in
    let changed : ObjectManager = record u {
      change_scene = not u.change_scene;
      is_prev_delete = false;
      is_cur_delete = false;
    } in
    let order' : IsInOrder (length reset + n) changed = record {
      collisions = order.collisions;
      selects = order.selects;
    } in
    let (v, f, initialised) =
      calls_if m.do_init init (length reset + n) changed changed inside' (omega arith) order'
        order' in
    let done : ObjectManager = record v { do_init = false } in
    let settled : IsInOrder (length init + (length reset + n)) done = record {
      collisions = initialised.collisions;
      selects = initialised.selects;
    } in
    (
      done,
      returns_then _ _ u done e (returns_then _ _ v done f refl),
      more-IsInOrder _ _ done (omega arith) settled,
    )

pub finish_change-IsInOrder :
    (reset init : List Call) (n : ℕ) (m : ObjectManager)
    → AllInside reset
    → AllInside init
    → length reset + length init + n < 4294967295
    → IsInOrder n m
    → (v : ObjectManager) × (finish_change reset init m ≡ some v)
      × IsInOrder (length reset + length init + n) v
unfolding finish_change
finish_change-IsInOrder reset init n m inside inside' small h =
    let (v, e, order) = change_now-IsInOrder reset init n m inside inside' small h in
    choose m.change_scene v order e
  where
    choose :
        (changing : Bool) (v : ObjectManager)
        → IsInOrder (length reset + length init + n) v
        → change_now reset init m ≡ some v
        → (w : ObjectManager) × ((if changing then change_now reset init m else some m) ≡ some w)
          × IsInOrder (length reset + length init + n) w
    choose true v order e = (v, e, order)
    choose false v order e = (m, refl, more-IsInOrder n _ m (omega arith) h)
