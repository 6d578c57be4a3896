-- ===== src/Client/Dispatch/Home.antt =====
-- Which scene the handlers of Project/DXClient/ClientServer.cpp cast to ChannelScene: m_pScene
-- without a game scene, m_pPrevScene with one.
use network_omok.Base.{
  ◌>>◌, ℕ, true, Option, none, some, List, [], ◌∷◌, WString, arith, ◌>>=◌, pure, deref, text_eq,
  if◌then◌else◌,
}
use network_omok.Omok.{Pos}
use network_omok.Server.{Address}
use network_omok.Server.Login.{no_enter_player}
use network_omok.Client.{
  UserInfo, Player, GameScene, Action, my_name, set_game_scene, set_in_game_scene, load_player,
  insert_player, allocate_player, allocate_scene, find_player, scene_channel,
}
use network_omok.Client.Rooms.{RoomRow}
use network_omok.Client.Lobby.{
  recv_login_result, learn_players, recv_player_list, recv_create_room, recv_room_list, open_scenes,
  seat_players, recv_player_exit, recv_enter_user, unless_login_scene,
}
use network_omok.Client.Play.{recv_player_ready, recv_game_start, recv_put_stone, recv_finish_game}
use network_omok.Client.Exits.{
  leave_scene, stay_in_scene, close_room, pass_host, recv_host_exit, recv_enter_exit,
}
use network_omok.Client.Dispatch.Keep.{
  Keeps, Keeps-bind, done-Keeps, choice-Keeps, the_channel-Keeps, update_room-Keeps,
  update_channel-Keeps, the_player-Keeps, load_player-Keeps, store_player-Keeps, load_scene-Keeps,
  store_scene-Keeps, deref-Keeps, my_name-Keeps, stay_in_scene-Keeps, leave_scene-Keeps,
  close_room-Keeps, pass_host-Keeps,
}

pub recv_login_result-Keeps :
    (ret : ℕ) (info : Option UserInfo) → Keeps (recv_login_result ret info)
unfolding recv_login_result
recv_login_result-Keeps ret info c d x home e = ground arith

pub recv_create_room-Keeps :
    (host title : WString) (index : ℕ) → Keeps (recv_create_room host title index)
unfolding recv_create_room
recv_create_room-Keeps host title index c d x home e = ground arith

pub recv_enter_user-Keeps : (host enter title : WString) → Keeps (recv_enter_user host enter title)
unfolding recv_enter_user
recv_enter_user-Keeps host enter title c d x home e = ground arith

pub recv_finish_game-Keeps : (winner title : WString) → Keeps (recv_finish_game winner title)
unfolding recv_finish_game
recv_finish_game-Keeps winner title c d x home e = ground arith

unless_login_scene-Keeps : (m : Action (Unit {0})) → Keeps m → Keeps (unless_login_scene m)
unless_login_scene-Keeps m keeps c d x home e =
    choice-Keeps c.is_login_scene (pure tt) m done-Keeps keeps c d x home e

pub recv_host_exit-Keeps :
    (title exit : WString) (new_host : Option WString) → Keeps (recv_host_exit title exit new_host)
unfolding recv_host_exit
recv_host_exit-Keeps title exit new_host = unless_login_scene-Keeps _ (
    Keeps-bind _ _ the_channel-Keeps (λ _. Keeps-bind _ _ (update_room-Keeps title _) (λ _.
      Keeps-bind _ _ (the_player-Keeps exit) (λ a. Keeps-bind _ _ (load_player-Keeps a) (λ player.
        Keeps-bind _ _ (deref-Keeps player.player_in_game_scene) (λ scene.
          Keeps-bind _ _ (store_scene-Keeps scene _) (λ _.
            Keeps-bind _ _ (store_player-Keeps a _) (λ _.
              Keeps-bind _ _ (store_player-Keeps a _)
                (λ _. after_host title exit new_host scene)))))))))
  where
    after_host :
        (title exit : WString) (new_host : Option WString) (scene : Address)
        → Keeps (elim new_host [
          | none ↦ close_room title exit scene
          | some id ↦ pass_host title exit id scene
        ])
    after_host title exit none scene = close_room-Keeps title exit scene
    after_host title exit (some id) scene = pass_host-Keeps title exit id scene

pub recv_enter_exit-Keeps : (title exit : WString) → Keeps (recv_enter_exit title exit)
unfolding recv_enter_exit
recv_enter_exit-Keeps title exit = unless_login_scene-Keeps _ (
    Keeps-bind _ _ the_channel-Keeps (λ _. Keeps-bind _ _ (update_room-Keeps title _) (λ _.
      Keeps-bind _ _ (update_room-Keeps title _) (λ _. Keeps-bind _ _ (the_player-Keeps exit) (λ a.
        Keeps-bind _ _ (load_player-Keeps a) (λ player.
          Keeps-bind _ _ (deref-Keeps player.player_in_game_scene) (λ scene.
            Keeps-bind _ _ (load_scene-Keeps scene) (λ g.
              Keeps-bind _ _ (store_scene-Keeps scene _) (λ _.
                Keeps-bind _ _ (store_player-Keeps a _) (λ _.
                  Keeps-bind _ _ (store_player-Keeps a _) (λ _. rest a player scene g)))))))))))
  where
    rest :
        (a : Address) (player : Player) (scene : Address) (g : GameScene)
        → Keeps (do
          me ← my_name
          (if text_eq me player.info.name then leave_scene a scene else pure tt)
          host ← deref g.host_player
          host_player ← load_player host
          if text_eq me host_player.info.name then stay_in_scene host scene else pure tt)
    rest a player scene g = Keeps-bind _ _ my_name-Keeps (λ me.
        Keeps-bind _ _
          (choice-Keeps (text_eq me player.info.name) _ _ (leave_scene-Keeps a scene) done-Keeps)
          (λ _. Keeps-bind _ _ (deref-Keeps g.host_player) (λ host.
            Keeps-bind _ _ (load_player-Keeps host) (λ host_player.
              choice-Keeps (text_eq me host_player.info.name) _ _ (stay_in_scene-Keeps host scene)
                done-Keeps))))

pub recv_player_exit-Keeps : (id : WString) → Keeps (recv_player_exit id)
unfolding recv_player_exit
recv_player_exit-Keeps id c d x home e = ground arith

pub recv_player_ready-Keeps : Keeps recv_player_ready
unfolding recv_player_ready
recv_player_ready-Keeps c d x home e = ground arith

pub recv_game_start-Keeps : (title host : WString) → Keeps (recv_game_start title host)
unfolding recv_game_start
recv_game_start-Keeps title host c d x home e = ground arith

pub recv_put_stone-Keeps : (p : Pos) (stone_type : ℕ) → Keeps (recv_put_stone p stone_type)
unfolding recv_put_stone
recv_put_stone-Keeps p stone_type c d x home e = ground arith

learn-Keeps : (info : UserInfo) (a : Address) → Keeps (insert_player info.name a)
learn-Keeps info a c d x home e = ground arith

allocate_player-Keeps : (info : UserInfo) → Keeps (allocate_player info)
allocate_player-Keeps info c d x home e = ground arith

allocate_scene-Keeps : Keeps allocate_scene
allocate_scene-Keeps c d x home e = ground arith

find_player-Keeps : (id : WString) → Keeps (find_player id)
find_player-Keeps id c d x home e = ground arith

scene_channel-Keeps : Keeps scene_channel
scene_channel-Keeps c d x home e = ground arith

learn_players-Keeps : (infos : List UserInfo) → Keeps (learn_players infos)
unfolding learn_players
learn_players-Keeps [] = done-Keeps
learn_players-Keeps (info ∷ rest) =
    Keeps-bind _ _ (allocate_player-Keeps info)
      (λ a. Keeps-bind _ _ (learn-Keeps info a) (λ _. learn_players-Keeps rest))

pub recv_player_list-Keeps : (infos : List UserInfo) → Keeps (recv_player_list infos)
unfolding recv_player_list
recv_player_list-Keeps infos = Keeps-bind _ _ scene_channel-Keeps (λ _. learn_players-Keeps infos)

open_scenes-Keeps : (rows : List RoomRow) → Keeps (open_scenes rows)
unfolding open_scenes
open_scenes-Keeps [] = done-Keeps
open_scenes-Keeps (r ∷ rest) = Keeps-bind _ _ (find_player-Keeps r.host) (λ found.
    Keeps-bind _ _ allocate_scene-Keeps (λ scene. Keeps-bind _ _ (deref-Keeps found) (λ a.
      Keeps-bind _ _ (store_player-Keeps a (set_game_scene (some scene))) (λ _.
        Keeps-bind _ _ (store_scene-Keeps scene (λ g. record g { host_player = some a }))
          (λ _. open_scenes-Keeps rest)))))

seat_players-Keeps : (rows : List RoomRow) → Keeps (seat_players rows)
unfolding seat_players
seat_players-Keeps [] = done-Keeps
seat_players-Keeps (r ∷ rest) = Keeps-bind _ _ (the_player-Keeps r.host) (λ a.
    Keeps-bind _ _ (load_player-Keeps a) (λ player.
      Keeps-bind _ _ (deref-Keeps player.player_in_game_scene) (λ scene.
        Keeps-bind _ _ (store_scene-Keeps scene (λ g. record g { title_name = r.title })) (λ _.
          Keeps-bind _ _
            (choice-Keeps (text_eq r.enter no_enter_player) _ _ done-Keeps (
              Keeps-bind _ _ (find_player-Keeps r.enter) (λ found.
                Keeps-bind _ _ (store_scene-Keeps scene (λ g. record g { enter_player = found }))
                  (λ _. Keeps-bind _ _ (deref-Keeps found) (λ b.
                    Keeps-bind _ _ (store_player-Keeps b (set_game_scene (some scene))) (λ _.
                      Keeps-bind _ _ (store_player-Keeps a (set_in_game_scene true))
                        (λ _. store_player-Keeps b (set_in_game_scene true))))))))
            (λ _. seat_players-Keeps rest)))))

pub recv_room_list-Keeps : (rows : List RoomRow) → Keeps (recv_room_list rows)
unfolding recv_room_list
recv_room_list-Keeps rows = Keeps-bind _ _ scene_channel-Keeps (λ _.
    Keeps-bind _ _ (open_scenes-Keeps rows)
      (λ _. Keeps-bind _ _ (seat_players-Keeps rows) (λ _. update_channel-Keeps _)))
