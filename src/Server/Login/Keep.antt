-- ===== src/Server/Login/Keep.antt =====
-- A login changes neither the rooms nor their count.
use network_omok.Base.{
  deref, Bool, true, false, some, [], ◌∷◌, WString, Assoc, if◌then◌else◌, arith, length, leb, ◌==◌,
}
use network_omok.Server.{Address, Room, M, load, load_user}
use network_omok.Server.Send.{broad_cast}
use network_omok.Server.Rooms.Effect.{
  Keeps, Keeps-bind, load-SameRooms, deref-SameRooms, send_packet-SameRooms, broad_cast-SameRooms,
}
use network_omok.Server.Login.{
  SqlReply, failed, returned, Statistics, requ_login, request_login, log_in, register,
  set_player_info, player_fields, send_player_list, send_room_list, collect, host_name, enter_name,
}

pure-Keeps : {A : Type 0} (x : A) → Keeps (λ s. some (x, s))
pure-Keeps x s t a e = ground arith

load_user-Keeps : (a : Address) → Keeps (load_user a)
load_user-Keeps a s t u e = ground arith

player_fields-Keeps : (me : WString) (players : Assoc Address) → Keeps (player_fields me players)
unfolding player_fields
player_fields-Keeps me [] = pure-Keeps []
player_fields-Keeps me ((k, a) ∷ rest) = Keeps-bind (load a) _ (load-SameRooms a) (λ p.
    Keeps-bind (player_fields me rest) _ (player_fields-Keeps me rest) (λ others. pure-Keeps _))

if-Keeps : {A : Type 0} (b : Bool) (m k : M A) → Keeps m → Keeps k → Keeps (if b then m else k)
if-Keeps true m k one two = one
if-Keeps false m k one two = two

send_player_list-Keeps : (me : Address) → Keeps (send_player_list me)
unfolding send_player_list
send_player_list-Keeps me s =
    if-Keeps (leb (length s.player_map) 1) _ _ (pure-Keeps tt)
      (Keeps-bind (load_user me) _ (load_user-Keeps me) (λ user.
        Keeps-bind (player_fields user.id s.player_map) _ (player_fields-Keeps user.id s.player_map)
          (λ listed. send_packet-SameRooms me _)))
      s

host_name-Keeps : (r : Room) → Keeps (host_name r)
host_name-Keeps r =
    Keeps-bind (deref r.host_player) _ (deref-SameRooms r.host_player)
      (λ a. Keeps-bind (load a) _ (load-SameRooms a) (λ p. pure-Keeps p.info.id))

enter_name-Keeps : (r : Room) → Keeps (enter_name r)
enter_name-Keeps r s t x e = ground arith

collect-Keeps :
    (column : Room → M WString) (rooms : Assoc Room)
    → ((r : Room) → Keeps (column r))
    → Keeps (collect column rooms)
unfolding collect
collect-Keeps column [] keeps = pure-Keeps []
collect-Keeps column ((t, r) ∷ rest) keeps = Keeps-bind (column r) _ (keeps r) (λ x.
    Keeps-bind (collect column rest) _ (collect-Keeps column rest keeps)
      (λ xs. pure-Keeps (x ∷ xs)))

send_room_list-Keeps : (me : Address) → Keeps (send_room_list me)
unfolding send_room_list
send_room_list-Keeps me s =
    if-Keeps (length s.room_map == 0) _ _ (pure-Keeps tt)
      (Keeps-bind (collect host_name s.room_map) _
        (collect-Keeps host_name s.room_map host_name-Keeps)
        (λ hosts.
          Keeps-bind (collect enter_name s.room_map) _
            (collect-Keeps enter_name s.room_map enter_name-Keeps)
            (λ enters. send_packet-SameRooms me _)))
      s

set_player_info-Keeps :
    (a : Address) (id : WString) (stats : SqlReply Statistics) → Keeps (set_player_info a id stats)
unfolding set_player_info
set_player_info-Keeps a id failed s t x e = ground arith
set_player_info-Keeps a id (returned v (total, wins, losses, rate)) s t x e = grind arith

register-Keeps : (me : Address) (id : WString) → Keeps (register me id)
unfolding register
register-Keeps me id s t x e = grind arith

log_in-Keeps :
    (me : Address) (id : WString) (stats : SqlReply Statistics) → Keeps (log_in me id stats)
unfolding log_in
log_in-Keeps me id stats = Keeps-bind (register me id) _ (register-Keeps me id) (λ a.
    Keeps-bind (set_player_info a id stats) _ (set_player_info-Keeps a id stats) (λ listed.
      Keeps-bind (broad_cast _) _ (broad_cast-SameRooms _) (λ _.
        Keeps-bind (send_player_list me) _ (send_player_list-Keeps me)
          (λ _. send_room_list-Keeps me))))

request_login-Keeps : (reply : SqlReply (Unit {0})) (id : WString) → Keeps (request_login reply id)
unfolding request_login
request_login-Keeps failed id s t a e = ground arith
request_login-Keeps (returned v _) id s t a e = grind arith

pub requ_login-SameRooms :
    (me : Address) (reply : SqlReply (Unit {0})) (stats : SqlReply Statistics) (id : WString)
    → Keeps (requ_login me reply stats id)
unfolding requ_login
requ_login-SameRooms me reply stats id =
    Keeps-bind (request_login reply id) _ (request_login-Keeps reply id)
      (λ ret. if-Keeps (ret == 0) _ _ (log_in-Keeps me id stats) (send_packet-SameRooms me _))
