-- ===== src/Client/Buttons.antt =====
-- What a click sends: OmokGround.cpp (HitSelect), StartBtn.cpp, ReadyBtn.cpp, ExitBtn.cpp and
-- RoomUI.cpp (HitSelect, RequestRoomEntry) of Project/DXClient. The scene that an object of a game
-- scene keeps a pointer to is taken to be the one in front.
pub mod Sent
pub mod Quick
use network_omok.Base.{
  ℕ, Bool, true, false, not, Option, none, some, List, [], ◌∷◌, WString, if◌then◌else◌, text_eq,
  State, ◌>>=◌, ◌>>◌, undefined, gets, modify, deref, pure,
}
use network_omok.Omok.{Pos}
use network_omok.Protocol.{
  cs_requ_room_entry, cs_requ_player_ready, cs_requ_player_start, cs_requ_put_stone,
  cs_requ_player_room_exit,
}
use network_omok.Server.{text, uint32, Message}
use network_omok.Client.{
  UserInfo, Player, GameScene, ChannelScene, channel_scene, ScenePointer, Client, Action,
  load_player, load_scene, store_scene, my_name, the_game, send_packet,
}
use network_omok.Client.Ground.{Floats, F, check_omok_ground, find_cell}

-- static_cast<ChannelScene*>(Scene::m_pPrevScene)->GetPlayer()->GetPlayerInfo().m_name
abbrev pub name_in_prev : Action WString
name_in_prev = do p ← gets (λ c. c.prev_scene); elim p [ channel_scene ↦ my_name | _ ↦ undefined ]

abbrev pub put_request : WString → WString → WString → Pos → ℕ → Message
put_request put another title p stone_type = record {
  protocol = cs_requ_put_stone;
  fields = text put ∷ text another ∷ text title ∷ uint32 p.0 ∷ uint32 p.1 ∷ uint32 stone_type ∷ [];
}

-- The packet of OmokGround::HitSelect for a cell.
unfoldable pub request_stone : GameScene → Pos → Action (Unit {0})
request_stone g p = do
  me ← name_in_prev
  host ← deref g.host_player
  host_player ← load_player host
  another ← (if text_eq host_player.info.name me then deref g.enter_player else pure host)
  another_player ← load_player another
  send_packet (
      put_request me another_player.info.name g.title_name p
        (if text_eq host_player.info.name me then 0 else 1))

-- OmokGround::HitSelect for a click that selects.
unfoldable pub hit_select : (fl : Floats) → F fl × F fl → Action (Unit {0})
unfolding check_omok_ground find_cell request_stone
hit_select fl click = do
  scene ← the_game
  g ← load_scene scene
  let put : Action (Unit {0}) = elim (find_cell fl g.taken click) [
    | none ↦ pure tt
    | some p ↦ request_stone g p
  ]
  if g.is_game_start
      then (if g.is_my_turn then (if check_omok_ground fl click then put else pure tt) else pure tt)
      else pure tt

-- StartBtn::EnterPlayerCheck
pub enter_player_check : Action Bool
enter_player_check = do
  scene ← the_game
  g ← load_scene scene
  let request = (do
    send_packet (record { protocol = cs_requ_player_start; fields = text g.title_name ∷ [] })
    pure true)
  let ready = if g.is_ready then request else pure false
  let entered : Action Bool = elim g.enter_player [ none ↦ pure false | some a ↦ ready ]
  if g.is_game_start then pure false else if g.is_host then entered else pure true

-- ReadyBtn::HitSelect
pub hit_ready : Action (Unit {0})
hit_ready = do
  scene ← the_game
  g ← load_scene scene
  let request = (do
    store_scene scene (λ h. record h { is_ready = not h.is_ready })
    host ← deref g.host_player
    player ← load_player host
    send_packet (record { protocol = cs_requ_player_ready; fields = text player.info.name ∷ [] }))
  if g.is_game_start then pure tt else if g.is_host then pure tt else request

-- ExitBtn::HitSelect
pub hit_exit : Action (Unit {0})
hit_exit = do
  scene ← the_game
  g ← load_scene scene
  let request = (do
    me ← name_in_prev
    send_packet
        (record { protocol = cs_requ_player_room_exit; fields = text g.title_name ∷ text me ∷ [] }))
  if g.is_game_start then pure tt else request

-- RoomUI::RequestRoomEntry for the row with a title; the scene is the channel's.
unfoldable pub request_room_entry : WString → Action (Unit {0})
request_room_entry title = do
  p ← gets (λ c. c.scene)
  me ← elim p [ channel_scene ↦ my_name | _ ↦ undefined ]
  send_packet (record { protocol = cs_requ_room_entry; fields = text title ∷ text me ∷ [] })
