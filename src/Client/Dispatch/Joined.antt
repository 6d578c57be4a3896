-- ===== src/Client/Dispatch/Joined.antt =====
-- ParsingRequRoomEntry of Project/DXServer/User.cpp to the clients whose ProcessRecvPacket
-- (Project/DXClient/ClientServer.cpp) handles what they get.
use network_omok.Base.{
  ◌≡◌, ◌∙◌, inl, inr, refl, sym, ap, subst, true, false, none, some, ◌++◌, map, arith, Bool-cases,
  Option-cases, WString, ◌==◌, if◌then◌else◌, lookup, adjust, IsKeyed,
}
use network_omok.Protocol.{ps_gamescene}
use network_omok.Server
use network_omok.Server.{Address, Room, Message, Server, set_session}
use network_omok.Server.Players.{set_player_scene}
use network_omok.Server.Rooms.{seat_enter}
use network_omok.Server.Rooms.Effect.{broad_cast-SameRooms}
use network_omok.Server.Requests
use network_omok.Server.Requests.{entered, requ_room_entry}
use network_omok.Server.Send.{broad_cast}
use network_omok.Server.Send.Delivery.{broad_cast-Sent}
use network_omok.Client.{Client, RoomUi}
use network_omok.Client.Rooms.{enter_player_in_room}
use network_omok.Client.Rooms.Mirror.{Mirrors}
use network_omok.Client.Rooms.Together.{IsMirror, adjusted, enters_face}
use network_omok.Client.Lobby.{recv_enter_user}
use network_omok.Client.Columns.Growing.{HasPlayer, Knows, Owns}
use network_omok.Client.Dispatch.{process_fields, process_packet, get_text, get_int32}
use network_omok.Client.Dispatch.Keep.{IsHome}
use network_omok.Client.Dispatch.Entered.{recv_enter_user-Works}
use network_omok.Client.Dispatch.Told.{online, delivered-online, with_title, online-with_title}

-- The server as it is when it tells of the entry.
abbrev seated : Address → WString → Address → Server.Player → Server → Server
seated me title a p s = record s {
  sessions = set_session me (with_title title) s.sessions;
  heap = λ b. if a == b then some (set_player_scene ps_gamescene p) else s.heap b;
  room_map = adjust title (seat_enter (some a)) s.room_map;
}

-- A room with a host that waits, and a player that enters.
module _ (me : Address) (title id : WString) (r : Room) (h a : Address) (hp p : Server.Player)
    (s : Server) (there : lookup title s.room_map ≡ some r) (hosted : r.host_player ≡ some h)
    (alone : r.enter_player ≡ none) (host_live : s.heap h ≡ some hp)
    (found : lookup id s.player_map ≡ some a) (live : s.heap a ≡ some p) where
  requ_room_entry-seated :
      requ_room_entry me title id s
      ≡ broad_cast (entered hp.info.id id title) (seated me title a p s)
  unfolding requ_room_entry Requests.enter_room
  requ_room_entry-seated = elim (Bool-cases (a == h)) [
    | inl same ↦ ground (arith, there, hosted, alone, host_live, found, live, same)
    | inr other ↦ ground (arith, there, hosted, alone, host_live, found, live, other)
  ]

  -- What is sent, and the rooms.
  requ_room_entry-Told :
      (t : Server) × (requ_room_entry me title id s ≡ some (tt, t))
      × (t.sent ≡ s.sent ++ map (λ k. (k, entered hp.info.id id title)) (online s.link s.sessions))
      × (t.room_map ≡ adjust title (seat_enter (some a)) s.room_map)
  requ_room_entry-Told =
      let m = entered hp.info.id id title in
      let s1 = seated me title a p s in
      let (t, went, sent) = broad_cast-Sent m s1 in
      (
        t,
        requ_room_entry-seated ∙ went,
        sent
            ∙ ap (λ out. s.sent ++ out)
                (delivered-online s.link s1.sessions m
                  ∙ ap (map (λ k. (k, m))) (online-with_title s.link me title s.sessions)),
        (broad_cast-SameRooms m s1 t tt went).0,
      )

process_packet-entered :
    (host id title : WString) (c : Client)
    → process_packet (entered host id title) c ≡ recv_enter_user host id title c
unfolding process_packet process_fields get_text get_int32
process_packet-entered host id title c = refl

row_of :
    (s : Server) (c : Client) (title : WString) (r : Room)
    → IsMirror s c.channel
    → lookup title s.room_map ≡ some r
    → (u : RoomUi) × (lookup title c.channel.room_map ≡ some u)
row_of s c title r before there = elim (Option-cases (lookup title c.channel.room_map)) [
  | inl missing ↦ absurd (ground (arith, before.same title, there, missing))
  | inr found ↦ found
]

-- For a room whose host is alive and alone in it, and a player that is in the table and alive:
-- ParsingRequRoomEntry returns, and sends one message, to the sessions that are connected and whose
-- link works, to each once and in their order. A client that has the rooms of the server, has logged in
-- and has its channel and its own player, and knows the host with its scene and the player that enters,
-- gets through this message, and then has the rooms of the server again.
pub requ_room_entry-IsMirror :
    (me : Address) (title id : WString) (r : Room) (h a : Address) (hp p : Server.Player)
    (s : Server) (c : Client)
    → lookup title s.room_map ≡ some r
    → r.host_player ≡ some h
    → r.enter_player ≡ none
    → r.player_count ≡ 1
    → s.heap h ≡ some hp
    → lookup id s.player_map ≡ some a
    → s.heap a ≡ some p
    → IsMirror s c.channel
    → IsHome c
    → c.is_login_scene ≡ false
    → c.is_login ≡ true
    → HasPlayer c c.channel.player
    → Owns c hp.info.id
    → Knows c id
    → (t : Server) × (d : Client) × (m : Message) × (requ_room_entry me title id s ≡ some (tt, t))
      × (t.sent ≡ s.sent ++ map (λ k. (k, m)) (online s.link s.sessions))
      × (process_packet m c ≡ some (tt, d))
      × IsMirror t d.channel
requ_room_entry-IsMirror me title id r h a hp p s c there hosted alone one host_live found live
      before home behind logged own owns known =
    let (t, went, sent, rooms) =
      requ_room_entry-Told me title id r h a hp p s there hosted alone host_live found live in
    let (u, row) = row_of s c title r before there in
    let (d, handled, is) =
      recv_enter_user-Works hp.info.id id title u c home behind logged own row owns known in
    let after =
      adjusted s c.channel title r (seat_enter (some a)) (enter_player_in_room 2) before there
        (λ u. enters_face (some a) r u one) in
    (
      t,
      d,
      entered hp.info.id id title,
      went,
      sent,
      process_packet-entered hp.info.id id title c ∙ handled,
      record {
        same =
            subst (λ m. Mirrors m d.channel.room_map) (sym rooms)
              (subst (λ cs. Mirrors (adjust title (seat_enter (some a)) s.room_map) cs.room_map)
                (sym is) after.same);
        keyed = subst IsKeyed (sym rooms) after.keyed;
        keyed' = subst (λ cs. IsKeyed cs.room_map) (sym is) after.keyed';
      },
    )
