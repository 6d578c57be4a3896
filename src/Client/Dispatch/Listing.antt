-- ===== src/Client/Dispatch/Listing.antt =====
-- SendRoomList of Project/DXServer/User.cpp to a client whose ProcessRecvPacket
-- (Project/DXClient/ClientServer.cpp) handles what it gets.
use network_omok.Base.{
  ◌≡◌, ◌⊎◌, inl, inr, refl, sym, ap, subst, true, false, Option, none, some, List, [], ◌∷◌, ◌++◌,
  map, append-nil, arith, Bool-cases, WString, Assoc, length, ◌==◌, IsKeyed, lookup, text_eq_refl,
}
use network_omok.Server
use network_omok.Server.{Address, User, Room, Field, uint32, Message, Server, find_session}
use network_omok.Protocol.{sc_requ_roomlist}
use network_omok.Server.Login.{
  host_name, enter_name, no_enter_player, collect, room_columns, send_room_list,
}
use network_omok.Client.{RoomUi, Client, channel_scene}
use network_omok.Client.Rooms.Mirror.{Mirrors, shown}
use network_omok.Client.Columns.{as_rows}
use network_omok.Client.Columns.Listed.{IsTitled, listed_rows, read_rows-columns, listed-Mirrors}
use network_omok.Client.Columns.Growing.{Knows}
use network_omok.Client.Columns.Knowing.{KnowsAll, KnowsEnter}
use network_omok.Client.Columns.Walks.{recv_room_list-Works}
use network_omok.Client.Dispatch.{process_fields, process_packet, process_all, get_uint32}

-- A pointer of the server to a live player that the client knows by its id.
abbrev Meets : Server → Client → Option Address → Type 0
Meets s c o =
    (a : Address) × (p : Server.Player) × (o ≡ some a) × (s.heap a ≡ some p) × Knows c p.info.id

-- So are the host of every room, and the player that has entered, if there is one.
abbrev pub AllMeet : Server → Client → Assoc Room → Type 0
AllMeet s c [] = Unit {0}
AllMeet s c ((t, r) ∷ rooms) =
    Meets s c r.host_player
    × ((r.enter_player ≡ none) ⊎ Meets s c r.enter_player)
    × AllMeet s c rooms

host_name-Meets :
    (s : Server) (c : Client) (r : Room)
    → Meets s c r.host_player
    → (id : WString) × (host_name r s ≡ some (id, s)) × Knows c id
host_name-Meets s c r (a, p, host, live, known) = (p.info.id, ground (arith, host, live), known)

enter_name-Meets :
    (s : Server) (c : Client) (r : Room)
    → (r.enter_player ≡ none) ⊎ Meets s c r.enter_player
    → (id : WString) × (enter_name r s ≡ some (id, s)) × KnowsEnter c id
enter_name-Meets s c r (inl nobody) =
    (no_enter_player, ground (arith, nobody), inl (text_eq_refl no_enter_player))
enter_name-Meets s c r (inr (a, p, enter, live, known)) =
    (p.info.id, ground (arith, enter, live), inr known)

-- The two columns with names, and the rows that they make.
collected :
    (s : Server) (c : Client) (rooms : Assoc Room)
    → AllMeet s c rooms
    → (hosts : List WString) × (enters : List WString) × (collect host_name rooms s
        ≡ some (hosts, s))
      × (collect enter_name rooms s ≡ some (enters, s))
      × (length hosts ≡ length rooms)
      × (length enters ≡ length rooms)
      × KnowsAll c (listed_rows rooms hosts enters)
unfolding collect as_rows
collected s c [] meet = ([], [], refl, refl, refl, refl, tt)
collected s c ((t, r) ∷ rooms) (host, enter, others) =
    let (h, named, known) = host_name-Meets s c r host in
    let (e, named', known') = enter_name-Meets s c r enter in
    let (hosts, enters, went, went', hosts_are, enters_are, all) = collected s c rooms others in
    (
      h ∷ hosts,
      e ∷ enters,
      ground (arith, named, went),
      ground (arith, named', went'),
      omega (arith, hosts_are),
      omega (arith, enters_are),
      (known, known', all),
    )

-- The packet of the list.
abbrev list_message : Assoc Room → List WString → List WString → Message
list_message rooms hosts enters = record {
  protocol = sc_requ_roomlist;
  fields = uint32 (length rooms) ∷ room_columns rooms hosts enters;
}

send_room_list-some :
    (me : Address) (u : User) (s : Server) (hosts enters : List WString)
    → find_session me s.sessions ≡ some u
    → u.is_connect ≡ true
    → s.link me ≡ true
    → (length s.room_map == 0) ≡ false
    → collect host_name s.room_map s ≡ some (hosts, s)
    → collect enter_name s.room_map s ≡ some (enters, s)
    → send_room_list me s
      ≡ some (tt, record s { sent = s.sent ++ ((me, list_message s.room_map hosts enters) ∷ []) })
unfolding send_room_list
send_room_list-some me u s hosts enters there online up some_rooms went went' =
    ground (arith, there, online, up, some_rooms, went, went')

no_list :
    (me : Address) (s : Server)
    → (length s.room_map == 0) ≡ true
    → send_room_list me s ≡ some (tt, s)
unfolding send_room_list
no_list me s nothing = ground (arith, nothing)

no_rooms-Mirrors :
    (rooms : Assoc Room) (uis : Assoc RoomUi)
    → (length rooms == 0) ≡ true
    → uis ≡ []
    → Mirrors rooms uis
unfolding lookup
no_rooms-Mirrors [] uis nothing none_there k = ap (λ m. shown (lookup k m)) none_there
no_rooms-Mirrors (e ∷ rooms) uis nothing none_there k = absurd (ground (arith, nothing))

list_message-Mirrors :
    (rooms : Assoc Room) (hosts enters : List WString) (c : Client)
    → length hosts ≡ length rooms
    → length enters ≡ length rooms
    → IsKeyed rooms
    → IsTitled rooms
    → c.scene ≡ channel_scene
    → c.channel.room_map ≡ []
    → KnowsAll c (listed_rows rooms hosts enters)
    → (d : Client) × (process_all (list_message rooms hosts enters ∷ []) c ≡ some (tt, d))
      × Mirrors rooms d.channel.room_map
unfolding process_all process_packet process_fields get_uint32
list_message-Mirrors rooms hosts enters c hosts_are enters_are keyed titled here none_yet known =
    let rows = listed_rows rooms hosts enters in
    let (d, went, is) = recv_room_list-Works rows c here known in
    (
      d,
      ground (arith, read_rows-columns rooms hosts enters hosts_are enters_are, went),
      subst (λ cs. Mirrors rooms cs.room_map) (sym is)
          (listed-Mirrors rooms hosts enters c.channel hosts_are enters_are keyed titled none_yet),
    )

-- A server with rooms that stand each under its own title and none twice, whose hosts and entered
-- players are alive, and a session that is connected and whose link works: SendRoomList returns, and
-- changes nothing but that it sends this session messages, and no other. A client in its channel, without
-- rooms as yet, that knows these players by their ids gets through these messages, and then shows the
-- rooms of the server: each under its title, and no others. The sizes of packets are not in this.
pub send_room_list-Mirrors :
    (me : Address) (u : User) (s : Server) (c : Client)
    → find_session me s.sessions ≡ some u
    → u.is_connect ≡ true
    → s.link me ≡ true
    → IsKeyed s.room_map
    → IsTitled s.room_map
    → AllMeet s c s.room_map
    → c.scene ≡ channel_scene
    → c.channel.room_map ≡ []
    → (ms : List Message) × (d : Client) × (send_room_list me s
        ≡ some (tt, record s { sent = s.sent ++ map (λ m. (me, m)) ms }))
      × (process_all ms c ≡ some (tt, d))
      × Mirrors s.room_map d.channel.room_map
unfolding process_all
send_room_list-Mirrors me u s c there online up keyed titled meet here none_yet =
    let (hosts, enters, went, went', hosts_are, enters_are, known) =
      collected s c s.room_map meet in
    elim (Bool-cases (length s.room_map == 0)) [
      | inl nothing ↦ (
        [],
        c,
        ground (arith, no_list me s nothing, append-nil s.sent),
        refl,
        no_rooms-Mirrors s.room_map c.channel.room_map nothing none_yet,
      )
      | inr some_rooms ↦
          let (d, handled, same) =
            list_message-Mirrors s.room_map hosts enters c hosts_are enters_are keyed titled here
              none_yet known in
          (
            list_message s.room_map hosts enters ∷ [],
            d,
            send_room_list-some me u s hosts enters there online up some_rooms went went',
            handled,
            same,
          )
    ]
