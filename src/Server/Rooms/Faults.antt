-- ===== src/Server/Rooms/Faults.antt =====
-- A room that is created under a title that another room has, and a room whose game is left.
use network_omok.Base.{
  bind-eq-some, ◌<◌, ◌≡◌, refl, Bool, true, false, none, some, WString, Assoc, arith, length,
  lookup, insert, text_eq, add32, sub32, lookup-adjust_self,
}
use network_omok.Server.{Address, Player, Room, Server}
use network_omok.Server.Frame.{sending}
use network_omok.Server.Send.{broad_cast, broad_cast_except_me}
use network_omok.Server.Rooms.{new_room, unseat_enter}
use network_omok.Server.Rooms.Seats.{stop_playing-SameInfo}
use network_omok.Server.Requests.{requ_create_room, max_rooms}
use network_omok.Server.Game.{requ_player_start}
use network_omok.Server.Leave.{stop_playing, enter_exit, give_up_seat, leave_room, check_exit_room}

insert_taken : (k : WString) (v r : Room) (m : Assoc Room) → lookup k m ≡ some r → insert k v m ≡ m
unfolding insert
insert_taken k v r m h = ground arith

-- Below the limit, a room under a title that is taken is not made, and yet the room count goes up
-- by one: it is no longer the number of rooms.
pub requ_create_room_taken :
    (me : Address) (host title ps : WString) (s t : Server) (r : Room)
    → length s.room_map < max_rooms
    → lookup title s.room_map ≡ some r
    → requ_create_room me host title ps s ≡ some (tt, t)
    → (t.room_map ≡ s.room_map) × (t.room_count ≡ add32 s.room_count 1)
unfolding requ_create_room broad_cast
requ_create_room_taken me host title ps s t r few taken e = grind (
  sending,
  insert_taken title
      (record (new_room s.room_count title ps) { host_player = lookup host s.player_map }) r
      s.room_map taken,
)

enter_exit-Room :
    (me : Address) (title exit : WString) (by : Bool) (r : Room) (s t : Server)
    → lookup title s.room_map ≡ some r
    → enter_exit me title exit by s ≡ some (tt, t)
    → lookup title t.room_map ≡ some (unseat_enter r)
unfolding enter_exit broad_cast broad_cast_except_me
enter_exit-Room me title exit by r s t there e =
    grind (sending, lookup-adjust_self title unseat_enter r s.room_map there)

give_up_seat-Room :
    (me : Address) (title exit : WString) (by : Bool) (r : Room) (h : Address) (p : Player)
    (s t : Server)
    → lookup title s.room_map ≡ some r
    → r.host_player ≡ some h
    → s.heap h ≡ some p
    → text_eq exit p.info.id ≡ false
    → give_up_seat me title r exit by s ≡ some (tt, t)
    → lookup title t.room_map ≡ some (unseat_enter r)
unfolding give_up_seat
give_up_seat-Room me title exit by r h p s t there host live other e =
    ground (arith, enter_exit-Room me title exit by r s t there)

-- When anybody but the host leaves a room, the room is still in the table with one player less in
-- its count, nobody entered, and its state as it was: a room whose game is left goes on playing.
pub check_exit_room_keeps_game :
    (me : Address) (title exit : WString) (by : Bool) (r : Room) (h : Address) (p : Player)
    (s t : Server)
    → lookup title s.room_map ≡ some r
    → r.host_player ≡ some h
    → s.heap h ≡ some p
    → text_eq exit p.info.id ≡ false
    → check_exit_room me title exit by s ≡ some (tt, t)
    → (q : Room) × (lookup title t.room_map ≡ some q)
      × (q.enter_player ≡ none)
      × (q.player_count ≡ sub32 r.player_count 1)
      × (q.is_play_game ≡ r.is_play_game)
unfolding check_exit_room leave_room unseat_enter
check_exit_room_keeps_game me title exit by r h p s t there host live other e =
    let left : leave_room me title r exit by s ≡ some (tt, t) = ground arith in
    let (x1, s1, first, e1) = bind-eq-some (stop_playing r.host_player) _ s t tt left in
    let (x2, s2, second, e2) = bind-eq-some (stop_playing r.enter_player) _ s1 t tt e1 in
    let (x3, s3, third, e3) = bind-eq-some (give_up_seat me title r exit by) _ s2 t tt e2 in
    let (rooms1, infos1) = stop_playing-SameInfo r.host_player s s1 x1 first in
    let (rooms2, infos2) = stop_playing-SameInfo r.enter_player s1 s2 x2 second in
    let (p1, live1, same1) = infos1 h p live in
    let (p2, live2, same2) = infos2 h p1 live1 in
    let room3 =
      give_up_seat-Room me title exit by r h p2 s2 s3 (rw (rooms2, rooms1) there) host live2
        (rw (same2, same1) other) third in
    (unseat_enter r, ground (arith, room3, e3), refl, refl, refl)

-- A start in a room that plays already changes no room.
requ_player_start_playing :
    (me : Address) (title : WString) (r : Room) (s t : Server)
    → lookup title s.room_map ≡ some r
    → r.is_play_game ≡ true
    → requ_player_start me title s ≡ some (tt, t)
    → (t.room_map ≡ s.room_map) × (t.room_count ≡ s.room_count)
unfolding requ_player_start broad_cast
requ_player_start_playing me title r s t there playing e = grind sending
