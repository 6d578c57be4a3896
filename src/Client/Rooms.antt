-- ===== src/Client/Rooms.antt =====
-- Project/DXClient/RoomUI.cpp and the rooms of ChannelScene.cpp: the list of the rooms that a client
-- shows. Creating the drawing of a row is taken to succeed.
pub mod Mirror
pub mod Together
use network_omok.Base.{
  ℕ, ◌+◌, ◌*◌, Bool, Option, none, some, List, [], ◌∷◌, WString, Assoc, if◌then◌else◌, ltb, leb,
  ◌==◌, add32, sub32, lookup, insert, erase, adjust, State, ◌>>=◌, ◌>>◌, undefined, gets, modify,
  pure,
}
use network_omok.Client.{
  UserInfo, Texture, wait_texture, play_texture, RoomUi, ChannelScene, Client, Action, the_channel,
  update_channel,
}

-- L"1 / 2" and L"2 / 2"
abbrev pub one_of_two : WString
one_of_two = b'1' ∷ b' ' ∷ b'/' ∷ b' ' ∷ b'2' ∷ []

abbrev two_of_two : WString
two_of_two = b'2' ∷ b' ' ∷ b'/' ∷ b' ' ∷ b'2' ∷ []

-- The text that the constructor RoomUI makes of the number of players.
abbrev pub count_text : ℕ → WString
count_text n = if leb n 1 then one_of_two else two_of_two

-- `210.0f + (index * 40.0f)`
abbrev location_of : ℕ → ℕ
location_of index = 210 + index * 40

-- RoomUI(…) with SetPosition, SetTexture and SetObjNum of ChannelScene::CreateRoom.
unfoldable pub new_room_ui : ℕ → WString → WString → ℕ → ℕ → Bool → RoomUi
new_room_ui num host title index players playing = record {
  obj_num = num;
  room_num = add32 index 1;
  title = title;
  host = host;
  player_count = count_text players;
  room_index = index;
  location = location_of index;
  texture = if playing then play_texture else wait_texture;
}

-- RoomUI::SetRoomIndex
unfoldable pub set_room_index : ℕ → RoomUi → RoomUi
set_room_index index r = record r {
  room_num = add32 index 1;
  room_index = index;
  location = location_of index;
}

-- RoomUI::EnterPlayerInRoom
unfoldable pub enter_player_in_room : ℕ → RoomUi → RoomUi
enter_player_in_room count r = record r {
  player_count = if count == 1 then one_of_two else two_of_two;
}

-- RoomUI::ChangeHostName
abbrev pub change_host_name : WString → RoomUi → RoomUi
change_host_name id r = record r { host = id }

abbrev pub set_texture : Texture → RoomUi → RoomUi
set_texture t r = record r { texture = t }

-- ChannelScene::CreateRoom: a row is drawn even where the map keeps another under the title.
unfoldable pub create_room : WString → WString → ℕ → ℕ → Bool → ChannelScene → ChannelScene
unfolding new_room_ui
create_room host title index players playing cs = record cs {
  room_map = insert title (new_room_ui cs.obj_count host title index players playing) cs.room_map;
  ui_obj_list = cs.obj_count ∷ cs.ui_obj_list;
  obj_count = add32 cs.obj_count 1;
}

-- The loop of ChannelScene::DeleteRoom.
unfoldable pub close_gap : ℕ → Assoc RoomUi → Assoc RoomUi
unfolding set_room_index
close_gap mine [] = []
close_gap mine ((t, r) ∷ rest) =
    (t, if ltb mine r.room_index then set_room_index (sub32 r.room_index 1) r else r)
    ∷ close_gap mine rest

-- ChannelScene::DeleteRoom; the iterator is dereferenced without a test.
unfoldable pub delete_room : WString → ChannelScene → Option ChannelScene
unfolding close_gap
delete_room title cs = elim (lookup title cs.room_map) [
  | none ↦ none
  | some r ↦ some (record cs { room_map = erase title (close_gap r.room_index cs.room_map) })
]

-- A row of the room list of the server: the entries of its columns at one place, and the name of
-- the player that has entered.
pub record RoomRow : Type 0 where
  pub host : WString
  pub title : WString
  pub index : ℕ
  pub players : ℕ
  pub playing : Bool
  pub enter : WString

-- ChannelScene::CreateRoomUIs
unfoldable pub create_room_uis : List RoomRow → ChannelScene → ChannelScene
unfolding create_room
create_room_uis [] cs = cs
create_room_uis (r ∷ rest) cs =
    create_room_uis rest (create_room r.host r.title r.index r.players r.playing cs)

-- `m_UIObjList.erase(number)`
abbrev pub erase_number : ℕ → List ℕ → List ℕ
erase_number n [] = []
erase_number n (m ∷ rest) = if m == n then rest else m ∷ erase_number n rest

-- ChannelScene::SetInfo, for the statistics of a player.
abbrev pub set_info : UserInfo → Action (Unit {0})
set_info info = update_channel (λ cs. record cs { shown = record info { name = cs.shown.name } })

-- The row that the handlers find by the title and dereference without a test.
abbrev pub the_room : WString → Action RoomUi
the_room title = do
  c ← gets (λ c. c.channel.room_map)
  elim (lookup title c) [ none ↦ undefined | some r ↦ pure r ]

-- A write to the row under the title.
abbrev pub update_room : WString → (RoomUi → RoomUi) → Action (Unit {0})
update_room title f = do
  _ ← the_room title
  update_channel (λ cs. record cs { room_map = adjust title f cs.room_map })
