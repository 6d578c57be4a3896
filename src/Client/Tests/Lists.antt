-- ===== src/Client/Tests/Lists.antt =====
-- The rooms of the server and of a client, at concrete values.
use network_omok.Base.{
  ◌≡◌, refl, true, false, inr, Option, some, none, List, [], ◌∷◌, ◌++◌, map, lookup, insert,
  text_eq,
}
use network_omok.Server.{Server, Room, Message}
use network_omok.Server.Login.{send_room_list}
use network_omok.Server.Requests.{requ_room_entry}
use network_omok.Server.Rooms.{new_room}
use network_omok.Client.{Client, channel_scene}
use network_omok.Client.Rooms.{create_room}
use network_omok.Client.Rooms.Mirror.{Mirrors}
use network_omok.Client.Rooms.Together.{starts, opens, IsMirror, AreTogether-IsMirror}
use network_omok.Client.Columns.Growing.{HasPlayer, Knows, Owns}
use network_omok.Client.Dispatch.{process_packet, process_all}
use network_omok.Client.Dispatch.Keep.{IsHome}
use network_omok.Client.Dispatch.Listing.{AllMeet, send_room_list-Mirrors}
use network_omok.Client.Dispatch.Joined.{requ_room_entry-IsMirror}
use network_omok.Client.Tests.{
  id_a, id_b, title_r, server, server_player, player, game, playing, user,
}

abbrev no_rooms : Server
no_rooms = record server { room_map = []; room_count = 0 }

r_is_new : lookup title_r no_rooms.room_map ≡ none
unfolding lookup
r_is_new = refl

-- The client of A in its channel, without rooms.
abbrev in_channel : Client
in_channel = record (playing true) {
  is_game_scene = false;
  scene = channel_scene;
  channel = record (playing true).channel { room_map = [] };
}

id_a-Knows : Knows in_channel id_a
unfolding lookup text_eq
id_a-Knows = (0, refl, (player id_a, refl))

id_b-Knows : Knows in_channel id_b
unfolding lookup text_eq
id_b-Knows = (1, refl, (player id_b, refl))

all_meet : AllMeet server in_channel server.room_map
all_meet = (
  (0, server_player id_a 10, refl, refl, id_a-Knows),
  inr (1, server_player id_b 12, refl, refl, id_b-Knows),
  tt,
)

r_is_alone : ◌≡◌ {A = Option Room} (lookup title_r []) none
unfolding lookup
r_is_alone = refl

send_room_list-Mirrors_example :
    (ms : List Message) × (d : Client) × (send_room_list 10 server
      ≡ some (tt, record server { sent = [] ++ map (λ m. (10, m)) ms }))
    × (process_all ms in_channel ≡ some (tt, d))
    × Mirrors server.room_map d.channel.room_map
send_room_list-Mirrors_example =
    send_room_list-Mirrors 10 (user true id_a) server in_channel refl refl refl (r_is_alone, tt)
      (refl, tt) all_meet refl refl

b_is_there : lookup id_b no_rooms.player_map ≡ some 1
unfolding lookup text_eq
b_is_there = refl

abbrev waiting_room : Room
waiting_room = record (new_room 0 title_r []) { host_player = some 0 }

abbrev one_room : Server
one_room = record no_rooms { room_map = insert title_r waiting_room [] }

abbrev with_room : Client
with_room = record in_channel { channel = create_room id_a title_r 0 1 false in_channel.channel }

one_room-IsMirror : IsMirror one_room with_room.channel
one_room-IsMirror = AreTogether-IsMirror one_room with_room.channel (
    opens no_rooms in_channel.channel title_r [] id_a 0 (some 0)
      (starts no_rooms in_channel.channel refl refl) r_is_new)

r_is_there : lookup title_r one_room.room_map ≡ some waiting_room
unfolding lookup insert text_eq
r_is_there = refl

id_a-Owns : Owns with_room id_a
unfolding lookup text_eq
id_a-Owns = (0, refl, (player id_a, 0, game true, refl, refl, refl))

with_room-IsHome : IsHome with_room
with_room-IsHome = inr (refl, inr refl)

-- The own player of this client.
own_a : HasPlayer with_room with_room.channel.player
unfolding create_room
own_a = (player id_a, refl)

requ_room_entry-IsMirror_example :
    (t : Server) × (d : Client) × (m : Message) × (requ_room_entry 11 title_r id_b one_room
      ≡ some (tt, t))
    × (t.sent ≡ [] ++ map (λ k. (k, m)) (10 ∷ 11 ∷ []))
    × (process_packet m with_room ≡ some (tt, d))
    × IsMirror t d.channel
requ_room_entry-IsMirror_example =
    requ_room_entry-IsMirror 11 title_r id_b waiting_room 0 1 (server_player id_a 10)
      (server_player id_b 12) one_room with_room r_is_there refl refl refl refl b_is_there refl
      one_room-IsMirror with_room-IsHome refl refl own_a id_a-Owns id_b-Knows
