-- ===== src/Client/Dispatch/Told.antt =====
-- ParsingRequCreateRoom of Project/DXServer/User.cpp to the clients whose ProcessRecvPacket
-- (Project/DXClient/ClientServer.cpp) handles what they get.
use network_omok.Base.{
  ◌≡◌, refl, Bool, true, some, List, [], ◌∷◌, map, arith, WString, ◌==◌, if◌then◌else◌, insert,
  add32,
}
use network_omok.Protocol.{ps_gamescene}
use network_omok.Server
use network_omok.Server.{Address, User, Message, Server, set_session}
use network_omok.Server.Players.{set_player_scene}
use network_omok.Server.Rooms.{new_room}
use network_omok.Server.Send.Delivery.{delivered}
use network_omok.Client.{Client}

-- L"No"
abbrev pub refusal : WString
refusal = b'N' ∷ b'o' ∷ []

-- The sessions that are connected and whose link works, in their order.
abbrev pub online : (Address → Bool) → List (Address × User) → List Address
online link [] = []
online link ((a, u) ∷ us) =
    if u.is_connect then (if link a then a ∷ online link us else online link us) else online link us

pub delivered-online :
    (link : Address → Bool) (us : List (Address × User)) (m : Message)
    → delivered link us m ≡ map (λ k. (k, m)) (online link us)
delivered-online link [] m = refl
delivered-online link ((a, u) ∷ us) m = ground (arith, delivered-online link us m)

-- Being in a room makes no difference to that.
abbrev pub with_title : WString → User → User
with_title title u = record u { is_in_room = true; room_title = title }

pub online-with_title :
    (link : Address → Bool) (me : Address) (title : WString) (us : List (Address × User))
    → online link (set_session me (with_title title) us) ≡ online link us
online-with_title link me title [] = refl
online-with_title link me title ((a, u) ∷ us) = ground (arith, online-with_title link me title us)

-- The server as it is when it tells of the new room.
abbrev opened : Address → WString → WString → Address → Server.Player → Server → Server
opened me title ps a p s = record s {
  sessions = set_session me (with_title title) s.sessions;
  heap = λ b. if a == b then some (set_player_scene ps_gamescene p) else s.heap b;
  room_count = add32 s.room_count 1;
  room_map =
      insert title (record (new_room s.room_count title ps) { host_player = some a }) s.room_map;
}
