-- ===== src/Client/Exits.antt =====
-- Project/DXClient/ClientServer.cpp: RecvHostPlayerExit and RecvEnterPlayerExit.
use network_omok.Base.{
  true, false, Option, none, some, WString, if◌then◌else◌, text_eq, ◌>>=◌, ◌>>◌, undefined, gets,
  modify, deref, pure,
}
use network_omok.Server.{Address}
use network_omok.Client.{
  GameScene, wait_texture, channel_scene, Action, put_at, load_player, store_player, load_scene,
  store_scene, the_player, the_channel, update_channel, my_name, change_scene, set_playing,
  set_in_game_scene, set_game_scene,
}
use network_omok.Client.Rooms.{
  enter_player_in_room, change_host_name, set_texture, the_room, update_room, erase_number,
  delete_room, set_info,
}
use network_omok.Client.Ground.{release_stones}
use network_omok.Client.Play.{win_game}
use network_omok.Client.Lobby.{unless_login_scene}

abbrev stop_scene : GameScene → GameScene
stop_scene g = record g { is_game_start = false }

-- The player whose game is left wins, if it was playing: `if (p->GetPlayGame()) …`.
unfoldable pub win_by_exit : Address → Action (Unit {0})
unfolding win_game
win_by_exit a =
    let won = (do
      store_player a (λ p. record p { info = win_game p.info })
      store_player a (set_playing false)
      player ← load_player a
      set_info player.info) in
    do player ← load_player a; if player.is_playing_game then won else pure tt

-- RecvHostPlayerExit where the player that had entered becomes the host.
unfoldable pub pass_host : WString → WString → WString → Address → Action (Unit {0})
unfolding win_by_exit enter_player_in_room release_stones
pass_host title exit new_host scene = do
  update_room title (change_host_name new_host)
  update_room title (enter_player_in_room 1)
  enter ← the_player new_host
  store_player enter (set_in_game_scene false)
  store_scene scene (λ g. record g {
    is_ready = false;
    is_my_turn = false;
    host_player = some enter;
    enter_player = none;
  })
  me ← my_name
  (if text_eq me exit
      then (store_scene scene release_stones >> change_scene channel_scene)
      else pure tt)
  (if text_eq me new_host
      then (do
        store_scene scene (λ g. record (release_stones g) { is_host = true })
        win_by_exit enter)
      else pure tt)

-- RecvHostPlayerExit where the room is empty: the scene and the row are deleted.
unfoldable pub close_room : WString → WString → Address → Action (Unit {0})
unfolding delete_room
close_room title exit scene = do
  modify (λ c. record c { scenes = put_at c.scenes scene none })
  row ← the_room title
  update_channel (λ cs. record cs { ui_obj_list = erase_number row.obj_num cs.ui_obj_list })
  cs ← gets (λ c. c.channel)
  elim (delete_room title cs) [ none ↦ undefined | some ds ↦ update_channel (λ _. ds) ]
  me ← my_name
  if text_eq me exit then change_scene channel_scene else pure tt

-- ClientServer::RecvHostPlayerExit; the last argument is newHostID, if the packet has one.
unfoldable pub recv_host_exit : WString → WString → Option WString → Action (Unit {0})
unfolding pass_host close_room
recv_host_exit title exit new_host = unless_login_scene (do
  _ ← the_channel
  update_room title (set_texture wait_texture)
  a ← the_player exit
  player ← load_player a
  scene ← deref player.player_in_game_scene
  store_scene scene stop_scene
  store_player a (set_game_scene none)
  store_player a (set_in_game_scene false)
  elim new_host [ none ↦ close_room title exit scene | some id ↦ pass_host title exit id scene ])

-- The two branches at the end of RecvEnterPlayerExit.
unfoldable pub leave_scene : Address → Address → Action (Unit {0})
unfolding release_stones
leave_scene a scene = do
  store_player a (set_playing false)
  store_scene scene release_stones
  modify (λ c. record c { scene = c.prev_scene; is_game_scene = false })

unfoldable pub stay_in_scene : Address → Address → Action (Unit {0})
unfolding win_by_exit release_stones
stay_in_scene host scene = do win_by_exit host; store_scene scene release_stones

-- ClientServer::RecvEnterPlayerExit; pGameScene is dereferenced before its test.
unfoldable pub recv_enter_exit : WString → WString → Action (Unit {0})
unfolding leave_scene stay_in_scene enter_player_in_room
recv_enter_exit title exit = unless_login_scene (do
  _ ← the_channel
  update_room title (enter_player_in_room 1)
  update_room title (set_texture wait_texture)
  a ← the_player exit
  player ← load_player a
  scene ← deref player.player_in_game_scene
  g ← load_scene scene
  store_scene scene (λ h. record h { is_game_start = false; is_ready = false; enter_player = none })
  store_player a (set_game_scene none)
  store_player a (set_in_game_scene false)
  me ← my_name
  (if text_eq me player.info.name then leave_scene a scene else pure tt)
  host ← deref g.host_player
  host_player ← load_player host
  if text_eq me host_player.info.name then stay_in_scene host scene else pure tt)
