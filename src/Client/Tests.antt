-- ===== src/Client/Tests.antt =====
-- The client, and the client with the server, at concrete values: two players A and B, of which A is
-- the host, in the room R.
mod Games
mod Boards
mod Lists
mod Logins
mod Dialogs
use network_omok.Base.{
  ℕ, ◌+◌, ◌-◌, ◌*◌, ◌/◌, Bool, true, false, Option, none, some, List, [], ◌∷◌, WString, ◌==◌, leb,
  if◌then◌else◌,
}
use network_omok.Omok.{clear_omok, Board}
use network_omok.Server
use network_omok.Server.{Address, Server, User, UserInfoDb, of_int}
use network_omok.Client.{
  UserInfo, Player, GameScene, RoomUi, ChannelScene, Client, channel_scene, game_scene, login_scene,
  null, play_texture, StoneType,
}
use network_omok.Client.Ground.{Floats}

abbrev pub id_a : WString
id_a = b'A' ∷ []

abbrev pub id_b : WString
id_b = b'B' ∷ []

abbrev pub title_r : WString
title_r = b'R' ∷ []

abbrev pub server_info : WString → UserInfoDb
server_info id = record {
  id = id;
  total_play_count = 3;
  win_game_count = 2;
  lose_game_count = 1;
  win_rate = of_int 0;
}

abbrev pub info : WString → UserInfo
info id = record {
  name = id;
  total_play_game_count = 3;
  win_game_count = 2;
  lose_game_count = 1;
  win_rate = of_int 0;
}

abbrev pub player : WString → Player
player id = record {
  info = info id;
  is_game_scene = true;
  is_playing_game = true;
  player_in_game_scene = some 0;
}

abbrev pub game : Bool → GameScene
game turn = record {
  taken = λ y x. false;
  stones = [];
  host_player = some 0;
  enter_player = some 1;
  title_name = title_r;
  is_ready = true;
  is_host = turn;
  is_game_start = true;
  is_my_turn = turn;
}

abbrev pub row : RoomUi
row = record {
  obj_num = 0;
  room_num = 1;
  title = title_r;
  host = id_a;
  player_count = b'2' ∷ b' ' ∷ b'/' ∷ b' ' ∷ b'2' ∷ [];
  room_index = 0;
  location = 210;
  texture = play_texture;
}

-- The client of A, or that of B, in the game.
abbrev pub playing : Bool → Client
playing is_a = record {
  is_login_scene = false;
  is_login = true;
  is_game_scene = true;
  scene = game_scene 0;
  prev_scene = channel_scene;
  channel = record {
    room_map = (title_r, row) ∷ [];
    ui_obj_list = 0 ∷ [];
    obj_count = 1;
    player = if is_a then 0 else 1;
    shown = info (if is_a then id_a else id_b);
  };
  players =
      λ a. if a == 0 then some (player id_a) else (if a == 1 then some (player id_b) else none);
  scenes = λ a. if a == 0 then some (game is_a) else none;
  next_player = 2;
  next_scene = 1;
  player_map = (id_a, 0) ∷ (id_b, 1) ∷ [];
  sent = [];
}

-- A client that waits for the result of its login.
abbrev pub waiting : Client
waiting = record {
  is_login_scene = false;
  is_login = false;
  is_game_scene = false;
  scene = login_scene;
  prev_scene = null;
  channel = record { room_map = []; ui_obj_list = []; obj_count = 0; player = 0; shown = info [] };
  players = λ a. none;
  scenes = λ a. none;
  next_player = 0;
  next_scene = 0;
  player_map = [];
  sent = [];
}

-- The server with the two in the room.
abbrev pub server_player : WString → Address → Server.Player
server_player id client = record {
  info = server_info id;
  client = client;
  is_play_game = true;
  player_scene = 2;
  omok = clear_omok;
}

abbrev pub server_room : Server.Room
server_room = record {
  room_index = 0;
  player_count = 2;
  host_player = some 0;
  enter_player = some 1;
  is_play_game = true;
  room_title_name = title_r;
  room_ps = [];
}

abbrev pub user : Bool → WString → User
user logged id = record {
  is_connect = true;
  is_login = logged;
  is_in_room = logged;
  room_title = title_r;
  id = id;
}

abbrev pub server : Server
server = record {
  sessions = (10, user true id_a) ∷ (11, user false []) ∷ [];
  heap = λ a.
      if a == 0
      then some (server_player id_a 10)
      else (if a == 1 then some (server_player id_b 12) else none);
  next_address = 2;
  player_map = (id_a, 0) ∷ (id_b, 1) ∷ [];
  room_map = (title_r, server_room) ∷ [];
  room_count = 1;
  link = λ a. true;
  sent = [];
  db_calls = [];
}

-- Floats as exact numbers of tenths.
abbrev pub tenths : Floats
tenths = record {
  F = ℕ;
  of_int = λ n. n * 10;
  row_step = 404;
  add = λ a b. a + b;
  sub = λ a b. a - b;
  mul = λ a b. a * b / 10;
  leb = λ a b. leb a b;
}
