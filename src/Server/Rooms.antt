-- ===== src/Server/Rooms.antt =====
-- Project/DXServer/Room.cpp, Room.h and RoomManager.cpp.
pub mod Effect
pub mod Faults
pub mod Index
pub mod Numbering
pub mod Seats
use network_omok.Base.{
  gets, modify, ◌>>=◌, ◌>>◌, pure, ℕ, ◌+◌, Bool, true, false, Option, none, some, List, [], ◌∷◌,
  WString, Assoc, add32, sub32, lookup, insert, erase, adjust, ltb, if◌then◌else◌, length,
}
use network_omok.Server.{Address, Room, Server, M}
use network_omok.Server.Players.{find_player}

-- Room(roomIndex, roomTitle, roomPs)
abbrev pub new_room : ℕ → WString → WString → Room
new_room index title ps = record {
  room_index = index;
  player_count = 1;
  host_player = none;
  enter_player = none;
  is_play_game = false;
  room_title_name = title;
  room_ps = ps;
}

abbrev pub is_some {ℓ} : {A : Type ℓ} → Option A → Bool
is_some none = false
is_some (some a) = true

abbrev is_full : Room → Bool
is_full r = if is_some r.host_player then is_some r.enter_player else false

-- IncreasePlayer and DecreasePlayer, on uInt32.
abbrev increase_player : Room → Room
increase_player r = record r { player_count = add32 r.player_count 1 }

abbrev pub decrease_player : Room → Room
decrease_player r = record r { player_count = sub32 r.player_count 1 }

-- What the handlers do to a room: SetEnterPlayer and IncreasePlayer when a player enters;
-- DecreasePlayer and SetEnterPlayer(nullptr) when it leaves; DecreasePlayer, SetHostPlayer and
-- SetEnterPlayer(nullptr) when the host leaves, with the new host or with nullptr.
unfoldable pub seat_enter : Option Address → Room → Room
seat_enter a r = increase_player (record r { enter_player = a })

unfoldable pub unseat_enter : Room → Room
unseat_enter r = decrease_player (record r { enter_player = none })

unfoldable pub change_host : Option Address → Room → Room
change_host a r = record (decrease_player r) { host_player = a; enter_player = none }

-- SetRoomState
unfoldable pub set_room_state : Bool → Room → Room
set_room_state value r = record r { is_play_game = value }

-- RoomManager::FindRoom; `none` is nullptr.
abbrev pub find_room : WString → M (Option Room)
find_room title = gets (λ s. lookup title s.room_map)

-- A write to the room that FindRoom has returned.
abbrev pub update_room : WString → (Room → Room) → M (Unit {0})
update_room title f = modify (λ s. record s { room_map = adjust title f s.room_map })

-- RoomManager::GetRoomCount returns the count and raises it.
abbrev pub get_room_count : M ℕ
get_room_count s = some (s.room_count, record s { room_count = add32 s.room_count 1 })

-- RoomManager::InsertRoom
abbrev pub insert_room : WString → Room → M (Unit {0})
insert_room title r = modify (λ s. record s { room_map = insert title r s.room_map })

-- The loop of DeleteRoom: every index above that of the deleted room goes down by one.
unfoldable pub renumber : ℕ → Assoc Room → Assoc Room
renumber index [] = []
renumber index ((t, r) ∷ m) =
    (t, if ltb index r.room_index then record r { room_index = sub32 r.room_index 1 } else r)
    ∷ renumber index m

-- RoomManager::DeleteRoom
abbrev pub delete_room : WString → M Bool
delete_room title = do
  found ← find_room title
  elim found [
    | none ↦ pure false
    | some r ↦ do
      modify (λ s. record s {
        room_map = erase title (renumber r.room_index s.room_map);
        room_count = sub32 s.room_count 1;
      })
      pure true
  ]

-- RoomManager::EntryRoom
abbrev pub entry_room : WString → WString → M Bool
entry_room title enter_id = do
  found ← find_room title
  elim found [
    | none ↦ pure false
    | some r ↦
        if is_full r then pure false else do player ← find_player enter_id; pure (is_some player)
  ]
