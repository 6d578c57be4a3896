-- ===== src/Server/Tests.antt =====
-- A server with two players in a room, and what its handlers do.
mod Games
mod Rooms
mod Runs
use network_omok.Base.{refl, true, false, none, some, [], ◌∷◌, WString, arith, if◌then◌else◌, ◌==◌}
use network_omok.Omok.{clear_omok}
use network_omok.Server.{Address, of_int, Player, Room, User, Server, M}
use network_omok.Server.Rooms.Seats.{AllSeated}
use network_omok.Server.Rooms.Numbering.{NumberedServer}

-- "A" and "B" are the ids of the players, "R" and "S" titles.
abbrev pub id_a : WString
id_a = b'A' ∷ []

abbrev pub id_b : WString
id_b = b'B' ∷ []

abbrev pub title_r : WString
title_r = b'R' ∷ []

abbrev pub title_s : WString
title_s = b'S' ∷ []

abbrev pub player : WString → Address → Player
player id client = record {
  info = record {
    id = id;
    total_play_count = 3;
    win_game_count = 2;
    lose_game_count = 1;
    win_rate = of_int 0;
  };
  client = client;
  is_play_game = true;
  player_scene = 2;
  omok = clear_omok;
}

abbrev pub user : WString → User
user id = record {
  is_connect = true;
  is_login = true;
  is_in_room = true;
  room_title = title_r;
  id = id;
}

abbrev pub room : Room
room = record {
  room_index = 0;
  player_count = 2;
  host_player = some 0;
  enter_player = some 1;
  is_play_game = true;
  room_title_name = title_r;
  room_ps = [];
}

-- The room R with the players A and B in it.
abbrev pub full : Server
full = record {
  sessions = (10, user id_a) ∷ (11, user id_b) ∷ [];
  heap = λ a.
      if a == 0 then some (player id_a 10) else (if a == 1 then some (player id_b 11) else none);
  next_address = 2;
  player_map = (id_a, 0) ∷ (id_b, 1) ∷ [];
  room_map = (title_r, room) ∷ [];
  room_count = 1;
  link = λ a. true;
  sent = [];
  db_calls = [];
}

-- The same, where only A is in the room.
abbrev pub open_for_one : Server
open_for_one = record full {
  room_map =
      (title_r, record room { player_count = 1; enter_player = none; is_play_game = false }) ∷ [];
}

pub seats : AllSeated full.room_map
seats = ((refl, refl), tt)

pub numbers : NumberedServer full
numbers = (refl, (ground arith, tt, tt), ground arith)

-- The state that an action gives.
abbrev pub outcome : M (Unit {0}) → Server → Server
outcome m s = elim (m s) [ none ↦ s | some (x, t) ↦ t ]
