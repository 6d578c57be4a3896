-- ===== src/Server/Leave.antt =====
-- Project/DXServer/User.cpp: ParsingRequPlayerRoomExit, CheckExitRoom, SendPlayerExit and
-- EventBeforeDelete.
pub mod Departure
use network_omok.Base.{
  deref, modify, ◌>>=◌, ◌>>◌, pure, ℕ, ◌+◌, Bool, true, false, Option, none, some, List, [], ◌∷◌,
  ◌++◌, WString, ◌==◌, if◌then◌else◌, lookup, adjust, erase, text_eq,
}
use network_omok.Protocol.{
  sc_requ_host_player_room_exit, sc_requ_enter_player_room_exit, sc_requ_player_exit,
}
use network_omok.Server.{
  Address, Player, Room, User, int32, text, Message, DbCall, update_logout, Server, M, load, store,
  load_user, store_user,
}
use network_omok.Server.Players.{find_player, delete_player, set_play_game, win_game, lose_game}
use network_omok.Server.Rooms.{
  decrease_player, change_host, unseat_enter, find_room, update_room, delete_room, renumber,
}
use network_omok.Server.Requests.{the_room}
use network_omok.Server.Game.{save_info}
use network_omok.Server.Send.{broad_cast, broad_cast_except_me}

-- `if (p != nullptr) p->SetPlayGame(false);`
abbrev pub stop_playing : Option Address → M (Unit {0})
stop_playing none = pure tt
stop_playing (some a) = store a (set_play_game false)

abbrev host_left : WString → WString → WString → Message
host_left title exit new_host = record {
  protocol = sc_requ_host_player_room_exit;
  fields = text title ∷ text exit ∷ int32 1 ∷ text new_host ∷ [];
}

abbrev room_closed : WString → WString → Message
room_closed title exit = record {
  protocol = sc_requ_host_player_room_exit;
  fields = text title ∷ text exit ∷ int32 0 ∷ [];
}

abbrev enter_left : WString → WString → Message
enter_left title exit = record {
  protocol = sc_requ_enter_player_room_exit;
  fields = text title ∷ text exit ∷ [];
}

-- BroadCast for a request, BroadCastExceptMe for a connection that has gone.
abbrev announce : Address → Bool → Message → M (Unit {0})
announce me by_request m = if by_request then broad_cast m else broad_cast_except_me me m

-- CheckExitRoom where the host leaves. `room` is the room before its count goes down.
unfoldable pub host_exit : Address → WString → Room → WString → Bool → M (Unit {0})
unfolding renumber broad_cast broad_cast_except_me
host_exit me title room exit by_request =
    let close = (do
      update_room title (change_host none)
      _ ← delete_room title
      announce me by_request (room_closed title exit)) in
    let pass_on = (do
      enter ← deref room.enter_player
      new_host ← load enter
      update_room title (change_host room.enter_player)
      announce me by_request (host_left title exit new_host.info.id)) in
    if (decrease_player room).player_count == 0 then close else pass_on

-- CheckExitRoom for anybody but the host.
unfoldable pub enter_exit : Address → WString → WString → Bool → M (Unit {0})
unfolding broad_cast broad_cast_except_me
enter_exit me title exit by_request = do
  update_room title unseat_enter
  announce me by_request (enter_left title exit)

-- `if (exitPlayer == pHostPlayer->GetPlayerInfo()->m_id)` and its branches.
unfoldable pub give_up_seat : Address → WString → Room → WString → Bool → M (Unit {0})
unfolding host_exit enter_exit
give_up_seat me title room exit by_request = do
  host ← deref room.host_player
  host_player ← load host
  if text_eq exit host_player.info.id
      then host_exit me title room exit by_request
      else enter_exit me title exit by_request

-- The body of CheckExitRoom for a room that exists.
unfoldable pub leave_room : Address → WString → Room → WString → Bool → M (Unit {0})
unfolding give_up_seat
leave_room me title room exit by_request = do
  stop_playing room.host_player
  stop_playing room.enter_player
  give_up_seat me title room exit by_request
  store_user me (λ u. record u { is_in_room = false })

-- User::CheckExitRoom
unfoldable pub check_exit_room : Address → WString → WString → Bool → M (Unit {0})
unfolding leave_room
check_exit_room me title exit by_request = do
  found ← find_room title
  elim found [ none ↦ pure tt | some room ↦ leave_room me title room exit by_request ]

-- User::ParsingRequPlayerRoomExit
unfoldable pub requ_player_room_exit : Address → WString → WString → M (Unit {0})
unfolding check_exit_room
requ_player_room_exit me title exit = do
  store_user me (λ u. record u { room_title = [] })
  check_exit_room me title exit true

-- User::SendPlayerExit
unfoldable pub send_player_exit : Address → M (Unit {0})
unfolding broad_cast
send_player_exit me = do
  user ← load_user me
  broad_cast (record { protocol = sc_requ_player_exit; fields = text user.id ∷ [] })

-- The part of EventBeforeDelete for a user that leaves during a game: a loss for it, and a win for
-- the other player of its room.
unfoldable pub forfeit : User → Address → M (Unit {0})
unfolding win_game lose_game
forfeit user a = do
  store a (λ p. record p { info = lose_game p.info })
  loser ← load a
  save_info user.id loser.info
  room ← the_room user.room_title
  host ← deref room.host_player
  host_player ← load host
  another ← (if text_eq host_player.info.id user.id then deref room.enter_player else pure host)
  store another (λ p. record p { info = win_game p.info })
  winner ← load another
  save_info winner.info.id winner.info

-- The end of EventBeforeDelete: the logout, and the player is gone.
unfoldable pub depart : Address → User → M (Unit {0})
unfolding send_player_exit
depart me user = do
  modify (λ s. record s { db_calls = s.db_calls ++ (update_logout user.id ∷ []) })
  delete_player user.id
  send_player_exit me

-- EventBeforeDelete for a user that has logged in.
unfoldable pub log_out : Address → User → M (Unit {0})
log_out me user = do
  found ← find_player user.id
  a ← deref found
  player ← load a
  (if player.is_play_game then forfeit user a else pure tt)
  (if user.is_in_room then check_exit_room me user.room_title user.id false else pure tt)
  depart me user

-- User::EventBeforeDelete
unfoldable pub event_before_delete : Address → M (Unit {0})
event_before_delete me = do user ← load_user me; if user.is_login then log_out me user else pure tt
