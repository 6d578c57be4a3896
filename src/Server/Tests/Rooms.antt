-- ===== src/Server/Tests/Rooms.antt =====
-- Rooms that are made, entered, left and closed.
use network_omok.Base.{
  ◌≡◌, ◌≢◌, refl, true, false, none, some, [], WString, lookup, adjust, insert, text_eq, arith,
  add32,
}
use network_omok.Server.{Room, Server}
use network_omok.Server.Send.{send_all, broad_cast}
use network_omok.Server.Rooms.{delete_room, unseat_enter, change_host}
use network_omok.Server.Rooms.Index.{IsNumbered, reindexed, delete_room-IsNumbered}
use network_omok.Server.Rooms.Faults.{requ_create_room_taken, check_exit_room_keeps_game}
use network_omok.Server.Requests.{requ_create_room, open_room}
use network_omok.Server.Leave.{check_exit_room, leave_room, give_up_seat, host_exit, enter_exit}
use network_omok.Server.Leave.Departure.{IsSound}
use network_omok.Server.Dispatch.{create_room, packet_parsing}
use network_omok.Server.Dispatch.Invariant.{packet_parsing-IsSound}
use network_omok.Server.Tests.{
  id_a, id_b, title_r, title_s, player, room, full, open_for_one, numbers, outcome,
}

delete_room-IsNumbered_example :
    (t : Server) × (delete_room title_r full ≡ some (true, t))
    × IsNumbered t.room_map t.room_count
    × ((other : WString)
        → title_r ≢ other
        → lookup other t.room_map ≡ reindexed 0 (lookup other full.room_map))
unfolding lookup text_eq
delete_room-IsNumbered_example = delete_room-IsNumbered full title_r room numbers refl

-- B makes a room of its own.
abbrev b_creates : Server
b_creates = outcome (packet_parsing 11 (create_room id_b title_s [])) open_for_one

b_creates_room : packet_parsing 11 (create_room id_b title_s []) open_for_one ≡ some (tt, b_creates)
unfolding packet_parsing requ_create_room open_room broad_cast send_all lookup insert text_eq
b_creates_room = refl

title_s_free : lookup title_s open_for_one.room_map ≡ none
unfolding lookup text_eq
title_s_free = refl

packet_parsing-IsSound_example : IsSound b_creates
packet_parsing-IsSound_example =
    packet_parsing-IsSound 11 (create_room id_b title_s []) open_for_one b_creates
      ((refl, (ground arith, tt, tt), ground arith), ((refl, refl), tt)) title_s_free b_creates_room

-- B asks for a room under the title that A has.
abbrev b_takes : Server
b_takes = outcome (requ_create_room 11 id_b title_r []) open_for_one

b_takes_title : requ_create_room 11 id_b title_r [] open_for_one ≡ some (tt, b_takes)
unfolding requ_create_room open_room broad_cast send_all lookup insert text_eq
b_takes_title = refl

title_r_taken :
    lookup title_r open_for_one.room_map
    ≡ some (record room { player_count = 1; enter_player = none; is_play_game = false })
unfolding lookup text_eq
title_r_taken = refl

requ_create_room_taken_example :
    (b_takes.room_map ≡ open_for_one.room_map) × (b_takes.room_count ≡ add32 1 1)
requ_create_room_taken_example =
    requ_create_room_taken 11 id_b title_r [] open_for_one b_takes
      (record room { player_count = 1; enter_player = none; is_play_game = false }) (ground arith)
      title_r_taken b_takes_title

-- The host A leaves, and B becomes the host.
abbrev a_leaves : Server
a_leaves = outcome (check_exit_room 10 title_r id_a true) full

a_leaves_room : check_exit_room 10 title_r id_a true full ≡ some (tt, a_leaves)
unfolding check_exit_room leave_room give_up_seat host_exit broad_cast send_all lookup adjust
    change_host text_eq
a_leaves_room = refl

-- B leaves the room in the middle of the game.
abbrev b_leaves : Server
b_leaves = outcome (check_exit_room 11 title_r id_b true) full

b_leaves_room : check_exit_room 11 title_r id_b true full ≡ some (tt, b_leaves)
unfolding check_exit_room leave_room give_up_seat enter_exit broad_cast send_all lookup adjust
    unseat_enter text_eq
b_leaves_room = refl

check_exit_room_keeps_game_example :
    (q : Room) × (lookup title_r b_leaves.room_map ≡ some q)
    × (q.enter_player ≡ none)
    × (q.player_count ≡ 1)
    × (q.is_play_game ≡ true)
unfolding lookup text_eq
check_exit_room_keeps_game_example =
    check_exit_room_keeps_game 11 title_r id_b true room 0 (player id_a 10) full b_leaves refl refl
      refl refl b_leaves_room
