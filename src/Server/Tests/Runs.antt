-- ===== src/Server/Tests/Runs.antt =====
-- Sessions, packets for all, and a run of the server.
use network_omok.Base.{
  ◌≡◌, refl, inl, true, none, some, [], lookup, adjust, erase, insert, text_eq, arith,
}
use network_omok.Server.{of_int, User, Server, find_session}
use network_omok.Server.Players.{win_game, lose_game}
use network_omok.Server.Send.{send_all, broad_cast, broad_cast_except_me, send_others}
use network_omok.Server.Rooms.{unseat_enter}
use network_omok.Server.Requests.{requ_create_room, open_room}
use network_omok.Server.Leave.{
  check_exit_room, leave_room, give_up_seat, enter_exit, event_before_delete, log_out, forfeit,
  depart, send_player_exit,
}
use network_omok.Server.Leave.Departure.{IsSound, IsPlaced, event_before_delete-IsSound}
use network_omok.Server.Game.{save_info}
use network_omok.Server.Login.{
  returned, requ_login, request_login, log_in, register, set_player_info, send_player_list,
  send_room_list,
}
use network_omok.Server.Dispatch.{Request, login, create_room, packet_parsing}
use network_omok.Server.Dispatch.Invariant.{initial, IsReachable, IsReachable-IsSound}
use network_omok.Server.Sessions.{create_new_session}
use network_omok.Server.Tests.{id_a, title_r, full, seats, numbers, outcome}

-- The connection of B goes during the game.
abbrev b_is_gone : Server
b_is_gone = outcome (event_before_delete 11) full

b_is_lost : event_before_delete 11 full ≡ some (tt, b_is_gone)
unfolding event_before_delete log_out forfeit depart send_player_exit check_exit_room leave_room
    give_up_seat enter_exit broad_cast broad_cast_except_me send_all send_others lookup adjust erase
    unseat_enter text_eq win_game lose_game save_info
b_is_lost = refl

b-IsPlaced :
    (u : User)
    → find_session 11 full.sessions ≡ some u
    → u.is_login ≡ true
    → u.is_in_room ≡ true
    → IsPlaced u full
unfolding lookup
b-IsPlaced u found online inside r there = inl (ground arith)

event_before_delete-IsSound_example : IsSound b_is_gone
event_before_delete-IsSound_example =
    event_before_delete-IsSound 11 full b_is_gone (numbers, seats) b-IsPlaced b_is_lost

-- The server after its start and a client's connection.
abbrev connected : Server
connected = outcome (create_new_session 10) (initial (λ a. true))

connects_first : create_new_session 10 (initial (λ a. true)) ≡ some (tt, connected)
unfolding create_new_session
connects_first = refl

-- The database lets A in, with its statistics.
abbrev a_login : Request
a_login = login (returned 0 tt) (returned 0 (3, 2, 1, of_int 0)) id_a

abbrev a_online : Server
a_online = outcome (packet_parsing 10 a_login) connected

a_logs_in : packet_parsing 10 a_login connected ≡ some (tt, a_online)
unfolding create_new_session packet_parsing requ_login request_login log_in register set_player_info
    broad_cast send_player_list send_room_list send_all lookup insert text_eq
a_logs_in = refl

-- A makes the room R.
abbrev a_hosts : Server
a_hosts = outcome (packet_parsing 10 (create_room id_a title_r [])) a_online

a_makes_room : packet_parsing 10 (create_room id_a title_r []) a_online ≡ some (tt, a_hosts)
unfolding create_new_session packet_parsing requ_login request_login log_in register set_player_info
    broad_cast send_player_list send_room_list send_all lookup insert text_eq requ_create_room
    open_room
a_makes_room = refl

title_r_free : lookup title_r a_online.room_map ≡ none
unfolding create_new_session packet_parsing requ_login request_login log_in register set_player_info
    broad_cast send_player_list send_room_list send_all lookup insert text_eq
title_r_free = refl

-- A start, a connection, a login and a room.
a_hosts-IsReachable : IsReachable a_hosts
a_hosts-IsReachable =
    IsReachable.handles 10 (create_room id_a title_r []) a_online a_hosts
      (IsReachable.handles 10 a_login connected a_online
        (IsReachable.connects 10 (initial (λ a. true)) connected (IsReachable.started (λ a. true))
          connects_first)
        tt a_logs_in)
      title_r_free a_makes_room

IsReachable-IsSound_example : IsSound a_hosts
IsReachable-IsSound_example = IsReachable-IsSound a_hosts a_hosts-IsReachable
