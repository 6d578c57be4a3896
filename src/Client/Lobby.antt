-- ===== src/Client/Lobby.antt =====
-- Project/DXClient/ClientServer.cpp: the handlers for accounts, logins, the two lists, new rooms,
-- players that leave and players that enter a room. A handler takes the fields that it reads.
use network_omok.Base.{
  ℕ, true, false, Option, none, some, List, [], ◌∷◌, WString, if◌then◌else◌, ◌==◌, text_eq, erase,
  ◌>>=◌, ◌>>◌, gets, modify, deref, pure,
}
use network_omok.Protocol.{rv_ok, ret_value}
use network_omok.Server.{Address}
use network_omok.Server.Login.{no_enter_player}
use network_omok.Client.{
  UserInfo, login_scene, channel_scene, game_scene, Action, put_at, load_player, store_player,
  store_scene, allocate_player, allocate_scene, find_player, the_player, insert_player, the_channel,
  scene_channel, update_channel, my_name, change_scene, set_in_game_scene, set_game_scene,
}
use network_omok.Client.Rooms.{
  RoomRow, create_room, create_room_uis, enter_player_in_room, update_room,
}

-- `if (m_isLoginScene) return;`
abbrev pub unless_login_scene : Action (Unit {0}) → Action (Unit {0})
unless_login_scene m = do flag ← gets (λ c. c.is_login_scene); if flag then pure tt else m

-- ClientServer::RecvCreateAccountPacket
unfoldable pub recv_create_account : ℕ → Action (Unit {0})
recv_create_account answer = if answer == 0 then change_scene login_scene else pure tt

-- The branch of RecvLoginResult for a login of the client's own: a ChannelScene is made.
enter_channel : Address → UserInfo → Action (Unit {0})
enter_channel a info = modify (λ c. record c {
  channel = record { room_map = []; ui_obj_list = []; obj_count = 0; player = a; shown = info };
  scene = channel_scene;
  prev_scene = channel_scene;
  is_login = true;
})

-- ClientServer::RecvLoginResult. The fields behind `ret` count only for RV_OK.
unfoldable pub recv_login_result : ℕ → Option UserInfo → Action (Unit {0})
unfolding enter_channel ret_value
recv_login_result ret fields =
    let refused = modify (λ c. record c { is_login_scene = true }) in
    let granted = (do
      info ← deref fields
      a ← allocate_player info
      insert_player info.name a
      logged ← gets (λ c. c.is_login)
      if logged then (do _ ← the_channel; pure tt) else enter_channel a info) in
    unless_login_scene (if ret == ret_value rv_ok then granted else refused)

-- The loop of RecvPlayerList.
unfoldable pub learn_players : List UserInfo → Action (Unit {0})
learn_players [] = pure tt
learn_players (info ∷ rest) = do
  a ← allocate_player info
  insert_player info.name a
  learn_players rest

-- ClientServer::RecvPlayerList. Here as in RecvRoomList m_pScene is cast without a test of flags.
unfoldable pub recv_player_list : List UserInfo → Action (Unit {0})
unfolding learn_players
recv_player_list infos = do _ ← scene_channel; learn_players infos

-- The second loop of RecvRoomList: each host gets a game scene.
unfoldable pub open_scenes : List RoomRow → Action (Unit {0})
open_scenes [] = pure tt
open_scenes (r ∷ rest) = do
  found ← find_player r.host
  scene ← allocate_scene
  a ← deref found
  store_player a (set_game_scene (some scene))
  store_scene scene (λ g. record g { host_player = some a })
  open_scenes rest

-- The last loop: the titles, and the players that have entered.
unfoldable pub seat_players : List RoomRow → Action (Unit {0})
seat_players [] = pure tt
seat_players (r ∷ rest) = do
  a ← the_player r.host
  player ← load_player a
  scene ← deref player.player_in_game_scene
  store_scene scene (λ g. record g { title_name = r.title })
  (if text_eq r.enter no_enter_player then pure tt else (do
    found ← find_player r.enter
    store_scene scene (λ g. record g { enter_player = found })
    b ← deref found
    store_player b (set_game_scene (some scene))
    store_player a (set_in_game_scene true)
    store_player b (set_in_game_scene true)))
  seat_players rest

-- ClientServer::RecvRoomList, with its columns as rows.
unfoldable pub recv_room_list : List RoomRow → Action (Unit {0})
unfolding open_scenes seat_players create_room_uis
recv_room_list rows = do
  _ ← scene_channel
  open_scenes rows
  seat_players rows
  update_channel (create_room_uis rows)

-- The end of RecvCreateRoom where the client is not the host.
unfoldable pub open_other : WString → Address → Action (Unit {0})
open_other host scene = do
  found ← find_player host
  elim found [
    | none ↦ pure tt
    | some a ↦ do
      store_scene scene (λ g. record g { host_player = some a })
      store_player a (set_in_game_scene true)
      store_player a (set_game_scene (some scene))
  ]

-- The same where it is.
unfoldable pub open_own : Address → Address → Action (Unit {0})
open_own me scene = do
  modify (λ c. record c { is_game_scene = true })
  store_player me (set_in_game_scene true)
  store_player me (set_game_scene (some scene))
  store_scene scene (λ g. record g { host_player = some me })
  change_scene (game_scene scene)

-- ClientServer::RecvCreateRoom
unfoldable pub recv_create_room : WString → WString → ℕ → Action (Unit {0})
unfolding create_room open_other open_own
recv_create_room host title index =
    let body = (do
      cs ← the_channel
      update_channel (create_room host title index 1 false)
      scene ← allocate_scene
      store_scene scene (λ g. record g { title_name = title; is_host = true })
      me ← my_name
      if text_eq host me then open_own cs.player scene else open_other host scene) in
    unless_login_scene (do logged ← gets (λ c. c.is_login); if logged then body else pure tt)

-- ClientServer::RecvPlayerExit with PlayerManager::DeletePlayer
unfoldable pub recv_player_exit : WString → Action (Unit {0})
recv_player_exit id = unless_login_scene (do
  found ← find_player id
  elim found [
    | none ↦ pure tt
    | some a ↦
        modify
          (λ c. record c { players = put_at c.players a none; player_map = erase id c.player_map })
  ])

-- ClientServer::RecvEnterUserInRoom for an entry that is granted.
unfoldable pub recv_enter_user : WString → WString → WString → Action (Unit {0})
unfolding enter_player_in_room
recv_enter_user host enter title = unless_login_scene (do
  _ ← the_channel
  host_found ← find_player host
  enter_found ← find_player enter
  update_room title (enter_player_in_room 2)
  a ← deref host_found
  host_player ← load_player a
  scene ← deref host_player.player_in_game_scene
  store_scene scene (λ g. record g { enter_player = enter_found })
  b ← deref enter_found
  store_player b (set_game_scene (some scene))
  me ← my_name
  enter_player ← load_player b
  if text_eq me enter_player.info.name
      then (do
        store_scene scene (λ g. record g { is_host = false })
        change_scene (game_scene scene)
        modify (λ c. record c { is_game_scene = true }))
      else pure tt)
