-- ===== src/Server/Dispatch/Invariant.antt =====
-- The invariant of the rooms over a whole run: packets, one after the other.
use network_omok.Base.{
  ◌≡◌, inl, inr, Bool, true, false, none, some, [], WString, lookup, arith, refl, Option-cases,
}
use network_omok.Server.{Address, User, Room, Server, find_session}
use network_omok.Server.Rooms.Seats.{
  AllSeated, SitsIn, requ_room_entry-AllSeated, requ_create_room-AllSeated,
  check_exit_room-AllSeated, set_room_state-AllSeated,
}
use network_omok.Server.Rooms.Effect.{
  StopsAtMost, requ_create_account-SameRooms, requ_player_ready-SameRooms, requ_player_start-Rooms,
  requ_put_stone-Rooms, SameRooms,
}
use network_omok.Server.Rooms.Numbering.{
  requ_create_room-IsNumbered, requ_room_entry-IsNumbered, check_exit_room-IsNumbered,
  StopsAtMost-IsNumbered, requ_player_start-IsNumbered,
}
use network_omok.Server.Login.Keep.{requ_login-SameRooms}
use network_omok.Server.Leave.{requ_player_room_exit, event_before_delete}
use network_omok.Server.Leave.Departure.{IsSound, IsPlaced, event_before_delete-IsSound}
use network_omok.Server.Sessions.{create_new_session, sweep, remove_session}
use network_omok.Server.Dispatch.{
  Request, account, login, create_room, room_entry, player_ready, player_room_exit, player_start,
  requ_stone, other, packet_parsing,
}

-- What the client takes care of: a new room has a new title, and only a player that sits in a room
-- leaves it.
abbrev pub IsProper : Request → Server → Type 0
IsProper (account reply) s = Unit {0}
IsProper (login reply stats id) s = Unit {0}
IsProper (create_room host title ps) s = lookup title s.room_map ≡ none
IsProper (room_entry title id) s = Unit {0}
IsProper (player_ready host) s = Unit {0}
IsProper (player_room_exit title exit) s =
    (r : Room) → lookup title s.room_map ≡ some r → SitsIn exit r s
IsProper (player_start title) s = Unit {0}
IsProper (requ_stone put another title p stone) s = Unit {0}
IsProper (other n) s = Unit {0}

SameRooms-IsSound : (s t : Server) → SameRooms s t → IsSound s → IsSound t
SameRooms-IsSound s t (rooms, count) h = rw (rooms, count) h

StopsAtMost-AllSeated :
    (title : WString) (s t : Server)
    → StopsAtMost title s t
    → AllSeated s.room_map
    → AllSeated t.room_map
StopsAtMost-AllSeated title s t (inl (rooms, count)) h = rw rooms h
StopsAtMost-AllSeated title s t (inr (rooms, count)) h =
    rw rooms (set_room_state-AllSeated false title s.room_map h)

requ_player_start-AllSeated :
    (me : Address) (title : WString) (s t : Server)
    → AllSeated s.room_map
    → packet_parsing me (player_start title) s ≡ some (tt, t)
    → AllSeated t.room_map
unfolding packet_parsing
requ_player_start-AllSeated me title s t h e = elim (requ_player_start-Rooms me title s t e) [
  | inl (rooms, count) ↦ rw rooms h
  | inr (rooms, count) ↦ rw rooms (set_room_state-AllSeated true title s.room_map h)
]

-- Every packet that the server handles, refused ones included, keeps the rooms sound if the request
-- is proper.
pub packet_parsing-IsSound :
    (me : Address) (q : Request) (s t : Server)
    → IsSound s
    → IsProper q s
    → packet_parsing me q s ≡ some (tt, t)
    → IsSound t
unfolding packet_parsing requ_player_room_exit
packet_parsing-IsSound me (account reply) s t h ok e =
    SameRooms-IsSound s t (requ_create_account-SameRooms me reply s t e) h
packet_parsing-IsSound me (login reply stats id) s t h ok e =
    SameRooms-IsSound s t (requ_login-SameRooms me reply stats id s t tt e) h
packet_parsing-IsSound me (create_room host title ps) s t h ok e = (
  requ_create_room-IsNumbered me host title ps s t h.0 ok e,
  requ_create_room-AllSeated me host title ps s t h.1 e,
)
packet_parsing-IsSound me (room_entry title id) s t h ok e = (
  requ_room_entry-IsNumbered me title id s t h.0 e,
  requ_room_entry-AllSeated me title id s t h.1 e,
)
packet_parsing-IsSound me (player_ready host) s t h ok e =
    SameRooms-IsSound s t (requ_player_ready-SameRooms me host s t e) h
packet_parsing-IsSound me (player_room_exit title exit) s t h ok e = (
  check_exit_room-IsNumbered me title exit true _ t h.0 e,
  check_exit_room-AllSeated me title exit true _ t h.1 ok e,
)
packet_parsing-IsSound me (player_start title) s t h ok e = (
  requ_player_start-IsNumbered me title s t h.0 e,
  requ_player_start-AllSeated me title s t h.1 e,
)
packet_parsing-IsSound me (requ_stone put another title p stone) s t h ok e =
    let effect = requ_put_stone-Rooms me put another title p stone s t e in
    (StopsAtMost-IsNumbered title s t effect h.0, StopsAtMost-AllSeated title s t effect h.1)
packet_parsing-IsSound me (other n) s t h ok e = ground arith

-- A user whose session ends sits in the room that it is in.
abbrev IsPlacedAt : Address → Server → Type 0
IsPlacedAt a s =
    (user : User)
    → find_session a s.sessions ≡ some user
    → user.is_login ≡ true
    → user.is_in_room ≡ true
    → IsPlaced user s

-- Removing a session keeps the rooms sound.
sweep-IsSound :
    (is_end_io : Bool) (a : Address) (s t : Server)
    → IsSound s
    → IsPlacedAt a s
    → sweep is_end_io a s ≡ some (tt, t)
    → IsSound t
unfolding sweep remove_session
sweep-IsSound is_end_io a s t h placed e = elim (Option-cases (event_before_delete a s)) [
  | inl crash ↦ ground arith
  | inr ((x, u), gone) ↦ let sound = event_before_delete-IsSound a s u h placed gone in ground arith
]

-- No session, no player, no room.
abbrev pub initial : (Address → Bool) → Server
initial network = record {
  sessions = [];
  heap = λ a. none;
  next_address = 0;
  player_map = [];
  room_map = [];
  room_count = 0;
  link = network;
  sent = [];
  db_calls = [];
}

-- The states of the server: it starts, clients connect, their packets are handled one at a time in
-- any order, and the sessions that have lost their connection are removed. The network may change
-- its mind between two steps.
pub data IsReachable : Server → Type 0 where
  started : (network : Address → Bool) → IsReachable (initial network)
  connects :
      (a : Address) (s t : Server)
      → IsReachable s
      → create_new_session a s ≡ some (tt, t)
      → IsReachable t
  handles :
      (me : Address) (q : Request) (s t : Server)
      → IsReachable s
      → IsProper q s
      → packet_parsing me q s ≡ some (tt, t)
      → IsReachable t
  sweeps :
      (is_end_io : Bool) (a : Address) (s t : Server)
      → IsReachable s
      → IsPlacedAt a s
      → sweep is_end_io a s ≡ some (tt, t)
      → IsReachable t
  links :
      (network : Address → Bool) (s : Server)
      → IsReachable s
      → IsReachable (record s { link = network })

-- In every state that proper requests and proper ends of sessions lead to, in whatever order, the
-- rooms are sound: n rooms have the n distinct indices below the room count n, each has a host, and
-- its count is 2 if somebody has entered and 1 if not.
pub IsReachable-IsSound : (s : Server) → IsReachable s → IsSound s
unfolding create_new_session
IsReachable-IsSound _ (started network) = ((refl, tt, ground arith), tt)
IsReachable-IsSound _ (connects a s t run e) = let sound = IsReachable-IsSound s run in ground arith
IsReachable-IsSound _ (handles me q s t run ok e) =
    packet_parsing-IsSound me q s t (IsReachable-IsSound s run) ok e
IsReachable-IsSound _ (sweeps is_end_io a s t run placed e) =
    sweep-IsSound is_end_io a s t (IsReachable-IsSound s run) placed e
IsReachable-IsSound _ (links network s run) = IsReachable-IsSound s run
