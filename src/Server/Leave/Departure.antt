-- ===== src/Server/Leave/Departure.antt =====
-- A user whose connection has gone (User::EventBeforeDelete) and the rooms.
use network_omok.Base.{
  bind-eq-some, ◌>>=◌, ◌>>◌, deref, pure, ◌≡◌, ◌∙◌, sym, ap, inl, inr, refl, Bool, true, false,
  Option, some, WString, if◌then◌else◌, ◌==◌, arith, lookup, text_eq, Option-cases, Bool-cases,
}
use network_omok.Server.{
  UserInfoDb, Address, Player, Room, User, Server, M, load, store, find_session,
}
use network_omok.Server.Players.{win_game, lose_game}
use network_omok.Server.Frame.{sending}
use network_omok.Server.Send.{broad_cast}
use network_omok.Server.Game.{save_info}
use network_omok.Server.Requests.{the_room}
use network_omok.Server.Rooms.Seats.{AllSeated, SitsIn, check_exit_room-AllSeated}
use network_omok.Server.Rooms.Effect.{SameRooms}
use network_omok.Server.Rooms.Numbering.{NumberedServer, check_exit_room-IsNumbered}
use network_omok.Server.Leave.{
  forfeit, check_exit_room, send_player_exit, depart, log_out, event_before_delete,
}

-- The rooms are as before, and the players live on under their ids.
abbrev SameIds : Server → Server → Type 0
SameIds s t =
    (t.room_map ≡ s.room_map)
    × (t.room_count ≡ s.room_count)
    × ((a : Address) (p : Player)
        → s.heap a ≡ some p
        → (q : Player) × (t.heap a ≡ some q) × (q.info.id ≡ p.info.id))

abbrev KeepsIds : {A : Type 0} → M A → Type 0
KeepsIds {A} m = (s t : Server) (a : A) → m s ≡ some (a, t) → SameIds s t

KeepsIds-bind :
    {A B : Type 0} (m : M A) (f : A → M B)
    → KeepsIds m
    → ((a : A) → KeepsIds (f a))
    → KeepsIds (m >>= f)
KeepsIds-bind m f first rest s t b e =
    let (a, u, went, left) = bind-eq-some m f s t b e in
    let (rooms, count, ids) = first s u a went in
    let (rooms', count', ids') = rest a u t b left in
    (
      rooms' ∙ rooms,
      count' ∙ count,
      λ a p live.
          let (q, live1, same1) = ids a p live in
          let (q', live2, same2) = ids' a q live1 in (q', live2, same2 ∙ same1),
    )

pure-KeepsIds : {A : Type 0} (x : A) → KeepsIds (λ s. some (x, s))
pure-KeepsIds x s t a e = (ground arith, ground arith, λ b q h. (q, ground arith, refl))

load-KeepsIds : (a : Address) → KeepsIds (load a)
load-KeepsIds a s t p e = (ground arith, ground arith, λ b q h. (q, ground arith, refl))

deref-KeepsIds : (o : Option Address) → KeepsIds (deref o)
deref-KeepsIds o s t p e = (ground arith, ground arith, λ b q h. (q, ground arith, refl))

the_room-KeepsIds : (title : WString) → KeepsIds (the_room title)
the_room-KeepsIds title s t p e = (ground arith, ground arith, λ b q h. (q, ground arith, refl))

if-KeepsIds :
    {A : Type 0} (b : Bool) (m k : M A) → KeepsIds m → KeepsIds k → KeepsIds (if b then m else k)
if-KeepsIds true m k one two = one
if-KeepsIds false m k one two = two

store-KeepsIds :
    (b : Address) (f : Player → Player)
    → ((p : Player) → (f p).info.id ≡ p.info.id)
    → KeepsIds (store b f)
store-KeepsIds b f same s t x e = elim (Option-cases (s.heap b)) [
  | inl missing ↦ absurd (ground arith)
  | inr (p, live) ↦ (
    ground arith,
    ground arith,
    λ a q h. (if b == a then f p else q, ground arith, ground (arith, same p)),
  )
]

save_info-KeepsIds : (id : WString) (i : UserInfoDb) → KeepsIds (save_info id i)
unfolding save_info
save_info-KeepsIds id i s t x e = (ground arith, ground arith, λ b q h. (q, ground arith, refl))

-- The statistics change, but no id.
forfeit-KeepsIds : (user : User) (a : Address) → KeepsIds (forfeit user a)
unfolding forfeit
forfeit-KeepsIds user a =
    KeepsIds-bind (store a (λ p. record p { info = lose_game p.info })) _
      (store-KeepsIds a _ (λ p. refl))
      (λ _. KeepsIds-bind (load a) _ (load-KeepsIds a) (λ loser.
        KeepsIds-bind (save_info user.id loser.info) _ (save_info-KeepsIds user.id loser.info) (λ _.
          KeepsIds-bind (the_room user.room_title) _ (the_room-KeepsIds user.room_title) (λ room.
            KeepsIds-bind (deref room.host_player) _ (deref-KeepsIds room.host_player) (λ host.
              KeepsIds-bind (load host) _ (load-KeepsIds host) (λ host_player.
                KeepsIds-bind
                  (if text_eq host_player.info.id user.id
                    then deref room.enter_player
                    else (λ s. some (host, s)))
                  _
                  (if-KeepsIds (text_eq host_player.info.id user.id) _ _
                    (deref-KeepsIds room.enter_player) (pure-KeepsIds host))
                  (λ another.
                    KeepsIds-bind (store another (λ p. record p { info = win_game p.info })) _
                      (store-KeepsIds another _ (λ p. refl))
                      (λ _.
                        KeepsIds-bind (load another) _ (load-KeepsIds another)
                          (λ winner. save_info-KeepsIds winner.info.id winner.info)))))))))

depart-SameRooms :
    (me : Address) (user : User) (s t : Server) → depart me user s ≡ some (tt, t) → SameRooms s t
unfolding depart send_player_exit broad_cast
depart-SameRooms me user s t e = grind sending

-- The rooms of a server are sound: numbered below their count, each count that of its seats.
abbrev pub IsSound : Server → Type 0
IsSound s = NumberedServer s × AllSeated s.room_map

-- A user that is in a room sits in the room whose title it has, if there is one.
abbrev pub IsPlaced : User → Server → Type 0
IsPlaced user s = (r : Room) → lookup user.room_title s.room_map ≡ some r → SitsIn user.id r s

SameIds-IsPlaced : (user : User) (s t : Server) → SameIds s t → IsPlaced user s → IsPlaced user t
SameIds-IsPlaced user s t (rooms, count, ids) placed r there =
    elim (placed r (ap (lookup user.room_title) (sym rooms) ∙ there)) [
      | inl taken ↦ inl taken
      | inr (a, p, seat, live, same) ↦
          let (q, live', same') = ids a p live in inr (a, q, seat, live', rw same' same)
    ]

-- An action that leaves the rooms sound when the user is placed.
abbrev KeepsSound : User → M (Unit {0}) → Type 0
KeepsSound user m =
    (s t : Server)
    → IsSound s
    → (user.is_in_room ≡ true → IsPlaced user s)
    → m s ≡ some (tt, t)
    → IsSound t

after_ids :
    {A : Type 0} (user : User) (m : M A) (f : A → M (Unit {0}))
    → KeepsIds m
    → ((a : A) → KeepsSound user (f a))
    → KeepsSound user (m >>= f)
after_ids user m f keeps rest s t h placed e =
    let (a, u, went, left) = bind-eq-some m f s t tt e in
    let same = keeps s u a went in
    rest a u t (rw (same.0, same.1) h) (λ in_room. SameIds-IsPlaced user s u same (placed in_room))
      left

vacate-KeepsSound :
    (me : Address) (user : User)
    → KeepsSound user (do
      (if user.is_in_room then check_exit_room me user.room_title user.id false else pure tt)
      depart me user)
vacate-KeepsSound me user s t h placed e =
    let (x, u, went, left) =
      bind-eq-some
        (if user.is_in_room then check_exit_room me user.room_title user.id false else pure tt) _ s
        t tt e in
    let (rooms, count) = depart-SameRooms me user u t left in
    elim (Bool-cases user.is_in_room) [
      | inl inside ↦
          let gone : check_exit_room me user.room_title user.id false s ≡ some (x, u) =
            ground arith in
          rw (rooms, count)
            (
              check_exit_room-IsNumbered me user.room_title user.id false s u h.0 gone,
              check_exit_room-AllSeated me user.room_title user.id false s u h.1 (placed inside)
                  gone,
            )
      | inr outside ↦ let stays : u ≡ s = ground arith in rw (rooms, count, stays) h
    ]

log_out-KeepsSound : (me : Address) (user : User) → KeepsSound user (log_out me user)
unfolding log_out
log_out-KeepsSound me user s =
    after_ids user (deref (lookup user.id s.player_map)) _ (deref-KeepsIds _)
      (λ a. after_ids user (load a) _ (load-KeepsIds a) (λ player.
        after_ids user (if player.is_play_game then forfeit user a else pure tt) _
          (if-KeepsIds player.is_play_game _ _ (forfeit-KeepsIds user a) (pure-KeepsIds tt))
          (λ _. vacate-KeepsSound me user)))
      s

-- The end of a session, whatever its user was doing, keeps the rooms sound, if a user that has
-- logged in and is in a room sits in the room whose title it has.
pub event_before_delete-IsSound :
    (me : Address) (s t : Server)
    → IsSound s
    → ((user : User)
        → find_session me s.sessions ≡ some user
        → user.is_login ≡ true
        → user.is_in_room ≡ true
        → IsPlaced user s)
    → event_before_delete me s ≡ some (tt, t)
    → IsSound t
unfolding event_before_delete
event_before_delete-IsSound me s t h placed e = elim (Option-cases (find_session me s.sessions)) [
  | inl missing ↦ absurd (ground arith)
  | inr (user, there) ↦ elim (Bool-cases user.is_login) [
    | inl online ↦ log_out-KeepsSound me user s t h (placed user there online) (ground arith)
    | inr offline ↦ ground arith
  ]
]
