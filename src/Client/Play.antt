-- ===== src/Client/Play.antt =====
-- Project/DXClient/ClientServer.cpp (RecvEnterPlayerReady, RecvGameStart, RecvPutStone,
-- RecvFinishGame) and Player.cpp (WinGame, LoseGame).
pub mod Agreement
pub mod Finish
pub mod Start
use network_omok.Base.{
  ℕ, Bool, true, false, ◌||◌, not, Option, none, some, List, [], ◌∷◌, WString, if◌then◌else◌, ◌==◌,
  add32, text_eq, State, ◌>>=◌, ◌>>◌, undefined, gets, modify, deref, pure,
}
use network_omok.Omok.{Pos}
use network_omok.Server.{Float, of_int, float_div, float_mul, Address}
use network_omok.Client.{
  UserInfo, Player, StoneType, black, white, GameScene, wait_texture, play_texture, Client, Action,
  load_player, store_player, load_scene, store_scene, the_player, the_channel, my_name, the_game,
  set_playing,
}
use network_omok.Client.Rooms.{update_room, set_texture, set_info}
use network_omok.Client.Ground.{put_stone, clear_omok, release_stones}
use network_omok.Client.Lobby.{unless_login_scene}

-- CalculateRate, which reads the counts of the object and not its arguments.
abbrev calculate_rate : UserInfo → Float
calculate_rate info =
    float_mul
      (float_div (of_int info.win_game_count)
        (of_int (add32 info.win_game_count info.lose_game_count)))
      (of_int 100)

-- Player::WinGame and Player::LoseGame; the counts are 32-bit patterns.
unfoldable pub win_game : UserInfo → UserInfo
win_game info =
    let counted : UserInfo = record info {
      total_play_game_count = add32 info.total_play_game_count 1;
      win_game_count = add32 info.win_game_count 1;
    } in
    record counted { win_rate = calculate_rate counted }

unfoldable pub lose_game : UserInfo → UserInfo
lose_game info =
    let counted : UserInfo = record info {
      total_play_game_count = add32 info.total_play_game_count 1;
      lose_game_count = add32 info.lose_game_count 1;
    } in
    record counted { win_rate = calculate_rate counted }

-- ClientServer::RecvEnterPlayerReady
unfoldable pub recv_player_ready : Action (Unit {0})
recv_player_ready = do
  scene ← the_game
  store_scene scene (λ g. record g { is_ready = not g.is_ready })

abbrev set_turn : Bool → GameScene → GameScene
set_turn value g = record g { is_my_turn = value }

-- The end of RecvGameStart: the host begins.
first_turn : Address → Address → Address → Action (Unit {0})
first_turn scene host enter = do
  host_player ← load_player host
  me ← my_name
  enter_player ← load_player enter
  if text_eq host_player.info.name me
      then store_scene scene (set_turn true)
      else if text_eq enter_player.info.name me
      then store_scene scene (set_turn false)
      else pure tt

-- ClientServer::RecvGameStart for a start that is granted.
unfoldable pub recv_game_start : WString → WString → Action (Unit {0})
unfolding clear_omok first_turn
recv_game_start title host_id = unless_login_scene (do
  _ ← the_channel
  update_room title (set_texture play_texture)
  a ← the_player host_id
  player ← load_player a
  scene ← deref player.player_in_game_scene
  store_scene scene (λ g. record (clear_omok g) { is_game_start = true })
  g ← load_scene scene
  host ← deref g.host_player
  store_player host (set_playing true)
  enter ← deref g.enter_player
  store_player enter (set_playing true)
  first_turn scene host enter)

-- The colour of a stone type; everything but BLACK is white.
abbrev pub colour : ℕ → StoneType
colour stone_type = if stone_type == 0 then black else white

-- ClientServer::RecvPutStone on the scene.
pub take_stone : ℕ → Pos → GameScene → Option GameScene
unfolding put_stone
take_stone stone_type p g = elim (put_stone (colour stone_type) p g) [
  | none ↦ none
  | some h ↦ some (if h.is_my_turn then set_turn false h else set_turn true h)
]

-- ClientServer::RecvPutStone
unfoldable pub recv_put_stone : Pos → ℕ → Action (Unit {0})
unfolding take_stone
recv_put_stone p stone_type = do
  scene ← the_game
  g ← load_scene scene
  elim (take_stone stone_type p g) [ none ↦ undefined | some h ↦ store_scene scene (λ _. h) ]

-- The scene of a game that has ended.
pub end_game : GameScene → GameScene
unfolding release_stones
end_game g =
    release_stones (record g { is_game_start = false; is_my_turn = false; is_ready = false })

-- The client's own statistics after a game of its own.
pub count_game : Bool → Action (Unit {0})
unfolding win_game lose_game
count_game won = do
  me ← gets (λ c. c.channel.player)
  store_player me (λ p. record p { info = if won then win_game p.info else lose_game p.info })
  player ← load_player me
  set_info player.info

-- ClientServer::RecvFinishGame; it does not ask whether the client has logged in.
unfoldable pub recv_finish_game : WString → WString → Action (Unit {0})
unfolding end_game count_game
recv_finish_game winner title = do
  win ← the_player winner
  win_player ← load_player win
  scene ← deref win_player.player_in_game_scene
  g ← load_scene scene
  host ← deref g.host_player
  store_player host (set_playing false)
  enter ← deref g.enter_player
  store_player enter (set_playing false)
  _ ← the_channel
  update_room title (set_texture wait_texture)
  store_scene scene end_game
  host_player ← load_player host
  enter_player ← load_player enter
  me ← my_name
  if text_eq host_player.info.name me || text_eq enter_player.info.name me
      then count_game (text_eq me win_player.info.name)
      else pure tt
