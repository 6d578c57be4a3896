-- ===== src/Server/Rooms/Seats.antt =====
-- The seats of a room: a host, perhaps a player that has entered, and a count of both.
use network_omok.Base.{
  bind-eq-some, ℕ, ◌≡◌, ◌⊎◌, ◌∙◌, ◌==◌, erase-adjust, lookup-adjust_self, refl, Bool, true, false,
  Option, none, some, [], ◌∷◌, WString, Assoc, if◌then◌else◌, arith, lookup, insert, erase, adjust,
  text_eq, inl, inr, Option-cases,
}
use network_omok.Server.{Address, Player, Room, Server}
use network_omok.Server.Frame.{sending}
use network_omok.Server.Send.{broad_cast, broad_cast_except_me}
use network_omok.Server.Rooms.{
  renumber, set_room_state, is_some, seat_enter, new_room, change_host, unseat_enter,
}
use network_omok.Server.Rooms.Index.{erase-renumber}
use network_omok.Server.Leave.{
  stop_playing, host_exit, enter_exit, give_up_seat, leave_room, check_exit_room,
}
use network_omok.Server.Requests.{requ_room_entry, requ_create_room}

-- The host's seat is taken, and the count is that of the taken seats.
abbrev pub IsSeated : Room → Type 0
IsSeated r =
    (is_some r.host_player ≡ true) × (r.player_count ≡ (if is_some r.enter_player then 2 else 1))

abbrev pub AllSeated : Assoc Room → Type 0
AllSeated [] = Unit {0}
AllSeated ((t, r) ∷ m) = IsSeated r × AllSeated m

pub lookup-IsSeated :
    (k : WString) (r : Room) (m : Assoc Room) → AllSeated m → lookup k m ≡ some r → IsSeated r
unfolding lookup
lookup-IsSeated k r [] h e = absurd (ground arith)
lookup-IsSeated k r ((t, q) ∷ m) h e = ground (arith, lookup-IsSeated k r m h.1)

adjust-AllSeated :
    (k : WString) (f : Room → Room) (r : Room) (m : Assoc Room)
    → AllSeated m
    → lookup k m ≡ some r
    → IsSeated (f r)
    → AllSeated (adjust k f m)
unfolding lookup adjust
adjust-AllSeated k f r [] h e g = tt
adjust-AllSeated k f r ((t, q) ∷ m) h e g = ground (arith, adjust-AllSeated k f r m h.1)

erase-AllSeated : (k : WString) (m : Assoc Room) → AllSeated m → AllSeated (erase k m)
unfolding erase
erase-AllSeated k [] h = tt
erase-AllSeated k ((t, r) ∷ m) h = ground (arith, erase-AllSeated k m h.1)

renumber-AllSeated : (i : ℕ) (m : Assoc Room) → AllSeated m → AllSeated (renumber i m)
unfolding renumber
renumber-AllSeated i [] h = tt
renumber-AllSeated i ((t, r) ∷ m) h = (ground arith, renumber-AllSeated i m h.1)

insert-AllSeated :
    (k : WString) (r : Room) (m : Assoc Room) → AllSeated m → IsSeated r → AllSeated (insert k r m)
unfolding insert
insert-AllSeated k r m h g = ground arith

-- Entering a room keeps the seats of every room right, also when the entry is refused.
pub requ_room_entry-AllSeated :
    (me : Address) (title id : WString) (s t : Server)
    → AllSeated s.room_map
    → requ_room_entry me title id s ≡ some (tt, t)
    → AllSeated t.room_map
unfolding requ_room_entry broad_cast seat_enter
requ_room_entry-AllSeated me title id s t h e = elim (Option-cases (lookup title s.room_map)) [
  | inl missing ↦ ground arith
  | inr (r, there) ↦
      let seated : IsSeated r = lookup-IsSeated title r s.room_map h there in
      grind
        (sending, adjust-AllSeated title (seat_enter (lookup id s.player_map)) r s.room_map h there)
]

-- Creating a room keeps the seats of every room right, also under a title that is taken and beyond
-- the limit.
pub requ_create_room-AllSeated :
    (me : Address) (host title ps : WString) (s t : Server)
    → AllSeated s.room_map
    → requ_create_room me host title ps s ≡ some (tt, t)
    → AllSeated t.room_map
unfolding requ_create_room broad_cast
requ_create_room-AllSeated me host title ps s t h e =
    elim (Option-cases (lookup host s.player_map)) [
      | inl missing ↦ ground arith
      | inr (a, there) ↦
          let r : Room = record (new_room s.room_count title ps) {
            host_player = lookup host s.player_map;
          } in
          grind (sending, insert-AllSeated title r s.room_map h)
    ]

-- The player that leaves the room sits in it: it is the host, or somebody has entered.
abbrev pub SitsIn : WString → Room → Server → Type 0
SitsIn exit r s =
    (is_some r.enter_player ≡ true)
    ⊎ ((a : Address) × (p : Player) × (r.host_player ≡ some a)
        × (s.heap a ≡ some p)
        × (text_eq exit p.info.id ≡ true))

closed-AllSeated :
    (i : ℕ) (k : WString) (f : Room → Room) (m : Assoc Room)
    → AllSeated m
    → AllSeated (erase k (renumber i (adjust k f m)))
closed-AllSeated i k f m h =
    rw (erase-renumber, erase-adjust) (renumber-AllSeated i (erase k m) (erase-AllSeated k m h))

host_exit-AllSeated :
    (me : Address) (title exit : WString) (by : Bool) (r : Room) (s t : Server)
    → AllSeated s.room_map
    → lookup title s.room_map ≡ some r
    → host_exit me title r exit by s ≡ some (tt, t)
    → AllSeated t.room_map
unfolding host_exit broad_cast broad_cast_except_me change_host
host_exit-AllSeated me title exit by r s t h there e =
    let seated : IsSeated r = lookup-IsSeated title r s.room_map h there in
    grind (
      sending,
      lookup-adjust_self title (change_host none) r s.room_map there,
      closed-AllSeated r.room_index title (change_host none) s.room_map h,
      adjust-AllSeated title (change_host r.enter_player) r s.room_map h there,
    )

enter_exit-AllSeated :
    (me : Address) (title exit : WString) (by : Bool) (r : Room) (s t : Server)
    → AllSeated s.room_map
    → lookup title s.room_map ≡ some r
    → is_some r.enter_player ≡ true
    → enter_exit me title exit by s ≡ some (tt, t)
    → AllSeated t.room_map
unfolding enter_exit broad_cast broad_cast_except_me unseat_enter
enter_exit-AllSeated me title exit by r s t h there taken e =
    let seated : IsSeated r = lookup-IsSeated title r s.room_map h there in
    grind (sending, adjust-AllSeated title unseat_enter r s.room_map h there)

-- Stopping a player changes nothing of the server but that player, and nothing of its statistics.
pub stop_playing-SameInfo :
    (o : Option Address) (s t : Server) (x : Unit {0})
    → stop_playing o s ≡ some (x, t)
    → (t.room_map ≡ s.room_map)
      × ((a : Address) (p : Player)
          → s.heap a ≡ some p
          → (q : Player) × (t.heap a ≡ some q) × (q.info ≡ p.info))
stop_playing-SameInfo none s t x e = (ground arith, λ a p h. (p, ground arith, refl))
stop_playing-SameInfo (some b) s t x e = (
  ground arith,
  λ a p h. (if b == a then record p { is_play_game = false } else p, ground arith, ground arith),
)

give_up_seat-AllSeated :
    (me : Address) (title exit : WString) (by : Bool) (r : Room) (s t : Server)
    → AllSeated s.room_map
    → lookup title s.room_map ≡ some r
    → SitsIn exit r s
    → give_up_seat me title r exit by s ≡ some (tt, t)
    → AllSeated t.room_map
unfolding give_up_seat
give_up_seat-AllSeated me title exit by r s t h there sits e = ground (
  arith,
  host_exit-AllSeated me title exit by r s t h there,
  enter_exit-AllSeated me title exit by r s t h there,
)

leave_room-AllSeated :
    (me : Address) (title exit : WString) (by : Bool) (r : Room) (s t : Server)
    → AllSeated s.room_map
    → lookup title s.room_map ≡ some r
    → SitsIn exit r s
    → leave_room me title r exit by s ≡ some (tt, t)
    → AllSeated t.room_map
unfolding leave_room
leave_room-AllSeated me title exit by r s t h there sits e =
    let (x1, s1, first, e1) = bind-eq-some (stop_playing r.host_player) _ s t tt e in
    let (x2, s2, second, e2) = bind-eq-some (stop_playing r.enter_player) _ s1 t tt e1 in
    let (x3, s3, third, e3) = bind-eq-some (give_up_seat me title r exit by) _ s2 t tt e2 in
    let (rooms1, infos1) = stop_playing-SameInfo r.host_player s s1 x1 first in
    let (rooms2, infos2) = stop_playing-SameInfo r.enter_player s1 s2 x2 second in
    let rooms : s2.room_map ≡ s.room_map = rooms2 ∙ rooms1 in
    let still : SitsIn exit r s2 = elim sits [
      | inl taken ↦ inl taken
      | inr (a, p, seat, live, same) ↦
          let (p1, live1, same1) = infos1 a p live in
          let (p2, live2, same2) = infos2 a p1 live1 in
          inr (a, p2, seat, live2, rw (same2, same1) same)
    ] in
    ground
      (arith, give_up_seat-AllSeated me title exit by r s2 s3 (rw rooms h) (rw rooms there) still)

-- Leaving a room, by request or by a lost connection, keeps the seats of every room right, if the
-- player that leaves sits in the room or the room does not exist.
pub check_exit_room-AllSeated :
    (me : Address) (title exit : WString) (by : Bool) (s t : Server)
    → AllSeated s.room_map
    → ((r : Room) → lookup title s.room_map ≡ some r → SitsIn exit r s)
    → check_exit_room me title exit by s ≡ some (tt, t)
    → AllSeated t.room_map
unfolding check_exit_room
check_exit_room-AllSeated me title exit by s t h sits e =
    elim (Option-cases (lookup title s.room_map)) [
      | inl missing ↦ ground arith
      | inr (r, there) ↦
          leave_room-AllSeated me title exit by r s t h there (sits r there) (ground arith)
    ]

-- Starting or stopping a game changes no seat.
pub set_room_state-AllSeated :
    (value : Bool) (k : WString) (m : Assoc Room)
    → AllSeated m
    → AllSeated (adjust k (set_room_state value) m)
unfolding adjust set_room_state
set_room_state-AllSeated value k [] h = tt
set_room_state-AllSeated value k ((t, r) ∷ m) h =
    ground (arith, set_room_state-AllSeated value k m h.1)
