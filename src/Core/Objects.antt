-- ===== src/Core/Objects.antt =====
-- Project/CoreLib/ObjectManager.cpp and ObjectManager.h: the objects of the scenes and their
-- functions, with SetCollision of DXObject.cpp and ChangeScene of Scene.cpp.
pub mod Registered
pub mod Changes
pub mod Runs
use network_omok.Base.{
  ℕ, zero, suc, ◌+◌, Bool, true, false, ◌&&◌, ◌||◌, not, Option, none, some, List, [], ◌∷◌, ◌==◌,
  leb, ltb, if◌then◌else◌, add32,
}
use network_omok.Server.{Address}

-- A std::map for each scene. The only functions are the HitOverlap and the HitSelect of an object,
-- bound to it, so a function is this object.
abbrev pub Maps : Type 0
Maps = ℕ → ℕ → Option Address

-- insert, which changes nothing where the key is present
pub put : ℕ → ℕ → Address → Maps → Maps
put index id owner m i k =
    if i == index && k == id then elim (m i k) [ none ↦ some owner | some o ↦ some o ] else m i k

-- find and erase
pub erase_id : ℕ → ℕ → Maps → Maps
erase_id index id m i k = if i == index && k == id then none else m i k

pub clear : ℕ → Maps → Maps
clear index m i k = if i == index then none else m i k

-- What there is once for collisions and once for the mouse, with the ids and types of the objects.
pub record Registry : Type 0 where
  pub ids : Address → ℕ
  pub types : Address → ℕ
  pub next : ℕ
  pub objects : Maps
  pub functions : Maps

-- AddCollisionExecute and AddSelectExecute
pub add_execute : Address → ℕ → Registry → Registry
unfolding put
add_execute owner index r = record r {
  ids = λ a. if a == owner then r.next else r.ids a;
  next = add32 r.next 1;
  objects = put index r.next owner r.objects;
  functions = put index r.next owner r.functions;
}

-- DeleteCollisionExecute and DeleteSelectExecute
pub delete_execute : Address → ℕ → Registry → Registry
unfolding erase_id
delete_execute owner index r = record r {
  objects = erase_id index (r.ids owner) r.objects;
  functions = erase_id index (r.ids owner) r.functions;
}

-- CT_IGNORE and ST_IGNORE
abbrev pub ignore : ℕ
ignore = 2

-- The part of DXObject::SetCollision for one of the two.
pub register : ℕ → ℕ → Address → Registry → Registry
unfolding add_execute
register type index owner r =
    if type == ignore
    then r
    else add_execute owner index (record r { types = λ a. if a == owner then type else r.types a })

pub record ObjectManager : Type 0 where
  pub collisions : Registry
  pub selects : Registry
  pub change_scene : Bool
  pub cur_scene_index : ℕ
  pub prev_scene_index : ℕ
  pub is_prev_delete : Bool
  pub is_cur_delete : Bool
  pub do_init : Bool

abbrev new_registry : Registry
new_registry = record {
  ids = λ a. 4294967295;
  types = λ a. ignore;
  next = 0;
  objects = λ i k. none;
  functions = λ i k. none;
}

-- ObjectManager(), before there is an object.
abbrev pub new_manager : ObjectManager
new_manager = record {
  collisions = new_registry;
  selects = new_registry;
  change_scene = false;
  cur_scene_index = 0;
  prev_scene_index = 0;
  is_prev_delete = false;
  is_cur_delete = false;
  do_init = false;
}

-- A call of SetCollision.
pub record Call : Type 0 where
  pub owner : Address
  pub col_type : ℕ
  pub sel_type : ℕ
  pub index : ℕ

abbrev pub max_list : ℕ
max_list = 10

-- DXObject::SetCollision. An index that is too large leaves the arrays of maps.
pub set_collision : Call → ObjectManager → Option ObjectManager
unfolding register
set_collision c m =
    let next : ObjectManager = record m {
      collisions = register c.col_type c.index c.owner m.collisions;
      selects = register c.sel_type c.index c.owner m.selects;
    } in
    if leb c.col_type ignore && leb c.sel_type ignore
    then (if ltb c.index max_list || (c.col_type == ignore && c.sel_type == ignore)
        then some next
        else none)
    else some m

pub set_collisions : List Call → ObjectManager → Option ObjectManager
set_collisions [] m = some m
set_collisions (c ∷ cs) m = elim (set_collision c m) [ none ↦ none | some n ↦ set_collisions cs n ]

-- Scene::ChangeScene, what it does to the manager.
pub scene_changes : ℕ → Bool → Bool → Bool → ObjectManager → ObjectManager
scene_changes index del_object init del_cur_object m = record m {
  is_prev_delete = if del_object then true else m.is_prev_delete;
  is_cur_delete = if del_cur_object then true else m.is_cur_delete;
  prev_scene_index = m.cur_scene_index;
  cur_scene_index = index;
  do_init = init;
  change_scene = true;
}

abbrev pub clear_scene : ℕ → ObjectManager → ObjectManager
clear_scene index m = record m {
  collisions = record (m.collisions) { objects = clear index m.collisions.objects };
  selects = record (m.selects) { objects = clear index m.selects.objects };
}

-- What ObjectManager::Update does at its end for a change of the scene, where the new scene may
-- register objects in ReSetCollision and in Init.
pub change_now : List Call → List Call → ObjectManager → Option ObjectManager
unfolding clear set_collisions
change_now reset init m =
    let gone = if m.is_prev_delete then clear_scene m.prev_scene_index m else m in
    let resetting =
      if m.is_cur_delete
      then set_collisions reset (clear_scene m.cur_scene_index gone)
      else some gone in
    elim resetting as (λ _. Option ObjectManager) [
      | none ↦ none
      | some n ↦
          let changed : ObjectManager = record n {
            change_scene = not n.change_scene;
            is_prev_delete = false;
            is_cur_delete = false;
          } in
          elim (if m.do_init then set_collisions init changed else some changed)
            as (λ _. Option ObjectManager) [
              | none ↦ none
              | some o ↦ some (record o { do_init = false })
            ]
    ]

pub finish_change : List Call → List Call → ObjectManager → Option ObjectManager
unfolding change_now
finish_change reset init m =
    let changed = change_now reset init m in if m.change_scene then changed else some m

-- DeleteCollisionExecute and DeleteSelectExecute for one object, as ChannelScene::DeleteRoom does.
pub deletes : Address → ℕ → ObjectManager → ObjectManager
unfolding delete_execute
deletes owner index m = record m {
  collisions = delete_execute owner index m.collisions;
  selects = delete_execute owner index m.selects;
}
