-- ===== src/Server/Rooms/Numbering.antt =====
-- The handlers keep the room indices the numbers below the room count.
use network_omok.Base.{
  bind-eq-some, ℕ, ◌≡◌, inl, inr, refl, Bool, true, false, Option, none, some, WString, Assoc,
  arith, lookup, erase, adjust, sub32, Option-cases, lookup-adjust_self,
}
use network_omok.Server.{Address, Room, Server}
use network_omok.Server.Frame.{sending}
use network_omok.Server.Send.{broad_cast, broad_cast_except_me}
use network_omok.Server.Rooms.{
  set_room_state, new_room, seat_enter, unseat_enter, change_host, renumber,
}
use network_omok.Server.Rooms.Index.{
  IsNumbered, adjust-IsNumbered, erase-IsNumbered, insert-IsNumbered,
}
use network_omok.Server.Rooms.Effect.{Keeps, StopsAtMost, requ_player_start-Rooms}
use network_omok.Server.Requests.{requ_create_room, requ_room_entry}
use network_omok.Server.Game.{requ_player_start}
use network_omok.Server.Leave.{
  stop_playing, host_exit, enter_exit, give_up_seat, leave_room, check_exit_room,
}

-- The numbering of a server's rooms.
abbrev pub NumberedServer : Server → Type 0
NumberedServer s = IsNumbered s.room_map s.room_count

-- A room that is created under a title that no room has gets the next index; beyond the limit
-- nothing changes.
pub requ_create_room-IsNumbered :
    (me : Address) (host title ps : WString) (s t : Server)
    → NumberedServer s
    → lookup title s.room_map ≡ none
    → requ_create_room me host title ps s ≡ some (tt, t)
    → NumberedServer t
unfolding requ_create_room broad_cast
requ_create_room-IsNumbered me host title ps s t v free e =
    elim (Option-cases (lookup host s.player_map)) [
      | inl missing ↦ ground arith
      | inr (a, there) ↦
          let r : Room = record (new_room s.room_count title ps) {
            host_player = lookup host s.player_map;
          } in
          grind (sending, insert-IsNumbered s.room_count title r s.room_map v free refl)
    ]

pub requ_room_entry-IsNumbered :
    (me : Address) (title id : WString) (s t : Server)
    → NumberedServer s
    → requ_room_entry me title id s ≡ some (tt, t)
    → NumberedServer t
unfolding requ_room_entry broad_cast seat_enter
requ_room_entry-IsNumbered me title id s t v e = grind (
  sending,
  adjust-IsNumbered s.room_count title (seat_enter (lookup id s.player_map)) s.room_map (λ r. refl)
      v,
)

closed-IsNumbered :
    (n : ℕ) (title : WString) (r : Room) (rooms : Assoc Room)
    → IsNumbered rooms n
    → lookup title rooms ≡ some r
    → IsNumbered
        (erase title (renumber r.room_index (adjust title (change_host none) rooms)))
        (sub32 n 1)
unfolding change_host
closed-IsNumbered n title r rooms v there =
    erase-IsNumbered n title (change_host none r) (adjust title (change_host none) rooms)
      (adjust-IsNumbered n title (change_host none) rooms (λ q. refl) v)
      (lookup-adjust_self title (change_host none) r rooms there)

host_exit-IsNumbered :
    (me : Address) (title exit : WString) (by : Bool) (r : Room) (s t : Server)
    → NumberedServer s
    → lookup title s.room_map ≡ some r
    → host_exit me title r exit by s ≡ some (tt, t)
    → NumberedServer t
unfolding host_exit broad_cast broad_cast_except_me change_host
host_exit-IsNumbered me title exit by r s t v there e = grind (
  sending,
  lookup-adjust_self title (change_host none) r s.room_map there,
  closed-IsNumbered s.room_count title r s.room_map v there,
  adjust-IsNumbered s.room_count title (change_host r.enter_player) s.room_map (λ q. refl) v,
)

enter_exit-IsNumbered :
    (me : Address) (title exit : WString) (by : Bool) (s t : Server)
    → NumberedServer s
    → enter_exit me title exit by s ≡ some (tt, t)
    → NumberedServer t
unfolding enter_exit broad_cast broad_cast_except_me unseat_enter
enter_exit-IsNumbered me title exit by s t v e =
    grind (sending, adjust-IsNumbered s.room_count title unseat_enter s.room_map (λ q. refl) v)

give_up_seat-IsNumbered :
    (me : Address) (title exit : WString) (by : Bool) (r : Room) (s t : Server)
    → NumberedServer s
    → lookup title s.room_map ≡ some r
    → give_up_seat me title r exit by s ≡ some (tt, t)
    → NumberedServer t
unfolding give_up_seat
give_up_seat-IsNumbered me title exit by r s t v there e = ground (
  arith,
  host_exit-IsNumbered me title exit by r s t v there,
  enter_exit-IsNumbered me title exit by s t v,
)

stop_playing-Keeps : (o : Option Address) → Keeps (stop_playing o)
stop_playing-Keeps none s t x e = ground arith
stop_playing-Keeps (some a) s t x e = ground arith

-- A player that leaves, by request or by a lost connection, whoever it is: the indices are again the
-- numbers below the room count, also when its room is closed.
pub check_exit_room-IsNumbered :
    (me : Address) (title exit : WString) (by : Bool) (s t : Server)
    → NumberedServer s
    → check_exit_room me title exit by s ≡ some (tt, t)
    → NumberedServer t
unfolding check_exit_room leave_room
check_exit_room-IsNumbered me title exit by s t v e =
    elim (Option-cases (lookup title s.room_map)) [
      | inl missing ↦ ground arith
      | inr (r, there) ↦
          let left : leave_room me title r exit by s ≡ some (tt, t) = ground arith in
          let (x1, s1, first, e1) = bind-eq-some (stop_playing r.host_player) _ s t tt left in
          let (x2, s2, second, e2) = bind-eq-some (stop_playing r.enter_player) _ s1 t tt e1 in
          let (x3, s3, third, e3) = bind-eq-some (give_up_seat me title r exit by) _ s2 t tt e2 in
          let (rooms1, count1) = stop_playing-Keeps r.host_player s s1 x1 first in
          let (rooms2, count2) = stop_playing-Keeps r.enter_player s1 s2 x2 second in
          ground (
            arith,
            give_up_seat-IsNumbered me title exit by r s2 s3 (rw (rooms2, rooms1, count2, count1) v)
                (rw (rooms2, rooms1) there),
          )
    ]

-- The other two effects on the rooms.
pub StopsAtMost-IsNumbered :
    (title : WString) (s t : Server) → StopsAtMost title s t → NumberedServer s → NumberedServer t
unfolding set_room_state
StopsAtMost-IsNumbered title s t (inl (rooms, count)) v = rw (rooms, count) v
StopsAtMost-IsNumbered title s t (inr (rooms, count)) v =
    rw (rooms, count)
      (adjust-IsNumbered s.room_count title (set_room_state false) s.room_map (λ r. refl) v)

pub requ_player_start-IsNumbered :
    (me : Address) (title : WString) (s t : Server)
    → NumberedServer s
    → requ_player_start me title s ≡ some (tt, t)
    → NumberedServer t
unfolding set_room_state
requ_player_start-IsNumbered me title s t v e = elim (requ_player_start-Rooms me title s t e) [
  | inl (rooms, count) ↦ rw (rooms, count) v
  | inr (rooms, count) ↦
      rw (rooms, count)
        (adjust-IsNumbered s.room_count title (set_room_state true) s.room_map (λ r. refl) v)
]
