-- ===== src/Server/Requests.antt =====
-- Project/DXServer/User.cpp: ParsingRequCreateRoom, ParsingRequRoomEntry, ParsingRequPlayerReady.
-- Each handler takes the fields that it reads from the packet.
use network_omok.Base.{
  deref, gets, ◌>>=◌, ◌>>◌, ℕ, true, none, some, [], ◌∷◌, WString, leb, if◌then◌else◌, length,
  lookup,
}
use network_omok.Protocol.{
  sc_requ_create_room, sc_requ_room_entry, sc_requ_player_ready, ps_gamescene,
}
use network_omok.Server.{Address, Room, int32, uint32, text, Message, M, load, store, store_user}
use network_omok.Server.Players.{find_player, set_player_scene}
use network_omok.Server.Rooms.{
  new_room, seat_enter, update_room, get_room_count, insert_room, entry_room,
}
use network_omok.Server.Send.{send_packet, broad_cast}

-- `if (GetRoomMap().size() >= 10)`
abbrev pub max_rooms : ℕ
max_rooms = 10

abbrev create_refused : Message
create_refused = record { protocol = sc_requ_create_room; fields = text (b'N' ∷ b'o' ∷ []) ∷ [] }

abbrev pub created : WString → WString → ℕ → Message
created host title index = record {
  protocol = sc_requ_create_room;
  fields = text host ∷ text title ∷ uint32 index ∷ [];
}

-- The part of ParsingRequCreateRoom behind the limit.
unfoldable pub open_room : Address → WString → WString → WString → M (Unit {0})
unfolding broad_cast
open_room me host title ps = do
  store_user me (λ u. record u { is_in_room = true; room_title = title })
  found ← find_player host
  player ← deref found
  store player (set_player_scene ps_gamescene)
  index ← get_room_count
  again ← find_player host
  insert_room title (record (new_room index title ps) { host_player = again })
  broad_cast (created host title index)

-- User::ParsingRequCreateRoom
unfoldable pub requ_create_room : Address → WString → WString → WString → M (Unit {0})
unfolding open_room
requ_create_room me host title ps = do
  rooms ← gets (λ s. s.room_map)
  if leb max_rooms (length rooms) then send_packet me create_refused else open_room me host title ps

abbrev entry_refused : Message
entry_refused = record { protocol = sc_requ_room_entry; fields = int32 0 ∷ [] }

abbrev pub entered : WString → WString → WString → Message
entered host id title = record {
  protocol = sc_requ_room_entry;
  fields = int32 1 ∷ text host ∷ text id ∷ text title ∷ [];
}

-- `*pRoom` for the result of FindRoom.
abbrev pub the_room : WString → M Room
the_room title s = elim (lookup title s.room_map) [ none ↦ none | some r ↦ some (r, s) ]

-- The part of ParsingRequRoomEntry after EntryRoom has said yes.
unfoldable pub enter_room : Address → WString → WString → M (Unit {0})
unfolding broad_cast
enter_room me title id = do
  store_user me (λ u. record u { is_in_room = true; room_title = title })
  found ← find_player id
  player ← deref found
  store player (set_player_scene ps_gamescene)
  room ← the_room title
  update_room title (seat_enter found)
  host ← deref room.host_player
  host_player ← load host
  broad_cast (entered host_player.info.id id title)

-- User::ParsingRequRoomEntry
unfoldable pub requ_room_entry : Address → WString → WString → M (Unit {0})
unfolding enter_room
requ_room_entry me title id = do
  granted ← entry_room title id
  if granted then enter_room me title id else send_packet me entry_refused

-- User::ParsingRequPlayerReady
unfoldable pub requ_player_ready : Address → WString → M (Unit {0})
requ_player_ready me host = do
  found ← find_player host
  a ← deref found
  player ← load a
  send_packet player.client (record { protocol = sc_requ_player_ready; fields = [] })
