-- ===== src/Client/Rooms/Together.antt =====
-- The table of the server's rooms and the rows of a client under the same changes: those that
-- ParsingRequCreateRoom, ParsingRequRoomEntry and CheckExitRoom of Project/DXServer/User.cpp make to
-- the one, and RecvCreateRoom, RecvEnterUserInRoom, RecvHostPlayerExit and RecvEnterPlayerExit of
-- Project/DXClient/ClientServer.cpp to the other. Only the tables are here; messages and handlers are
-- in Client/Dispatch/Told and Joined.
use network_omok.Base.{
  ℕ, ◌≡◌, refl, true, false, sym, subst, Option, none, some, [], WString, lookup, insert, adjust,
  IsKeyed, insert-IsKeyed, adjust-IsKeyed, arith,
}
use network_omok.Server.{Room, Server, Address}
use network_omok.Server.Rooms
use network_omok.Server.Rooms.{new_room, seat_enter, unseat_enter, change_host}
use network_omok.Client.{RoomUi, ChannelScene, wait_texture}
use network_omok.Client.Rooms.{
  new_room_ui, enter_player_in_room, change_host_name, set_texture, create_room, delete_room,
}
use network_omok.Client.Rooms.Mirror.{
  Mirrors, shown_of, face_of, delete_room-Mirrors, insert-Mirrors, adjust-Mirrors,
}

-- A client's scene with the row under a title changed.
abbrev pub with_row : WString → (RoomUi → RoomUi) → ChannelScene → ChannelScene
with_row title g cs = record cs { room_map = adjust title g cs.room_map }

-- The changes of the two tables, in step.
pub data AreTogether : Server → ChannelScene → Type 0 where
  starts : (s : Server) (cs : ChannelScene) → s.room_map ≡ [] → cs.room_map ≡ [] → AreTogether s cs
  opens :
      (s : Server) (cs : ChannelScene) (title ps name : WString) (index : ℕ) (host : Option Address)
      → AreTogether s cs
      → lookup title s.room_map ≡ none
      → AreTogether
          (record s {
            room_map =
                insert title (record (new_room index title ps) { host_player = host }) s.room_map;
          })
          (create_room name title index 1 false cs)
  enters :
      (s : Server) (cs : ChannelScene) (title : WString) (r : Room) (player : Option Address)
      → AreTogether s cs
      → lookup title s.room_map ≡ some r
      → r.player_count ≡ 1
      → AreTogether
          (record s { room_map = adjust title (seat_enter player) s.room_map })
          (with_row title (enter_player_in_room 2) cs)
  leaves :
      (s : Server) (cs : ChannelScene) (title : WString) (r : Room)
      → AreTogether s cs
      → lookup title s.room_map ≡ some r
      → r.player_count ≡ 2
      → AreTogether
          (record s { room_map = adjust title unseat_enter s.room_map })
          (with_row title (λ u. set_texture wait_texture (enter_player_in_room 1 u)) cs)
  passes :
      (s : Server) (cs : ChannelScene) (title name : WString) (r : Room) (host : Option Address)
      → AreTogether s cs
      → lookup title s.room_map ≡ some r
      → r.player_count ≡ 2
      → AreTogether
          (record s { room_map = adjust title (change_host host) s.room_map })
          (with_row title
            (λ u. enter_player_in_room 1 (change_host_name name (set_texture wait_texture u)))
            cs)
  closes :
      (s t : Server) (cs ds : ChannelScene) (title : WString) (r : Room)
      → AreTogether s cs
      → lookup title s.room_map ≡ some r
      → Rooms.delete_room title s ≡ some (true, t)
      → delete_room title cs ≡ some ds
      → AreTogether t ds

-- The client shows the rooms of the server, and no title stands twice on either side.
pub record IsMirror (s : Server) (cs : ChannelScene) : Type 0 where
  pub same : Mirrors s.room_map cs.room_map
  pub keyed : IsKeyed s.room_map
  pub keyed' : IsKeyed cs.room_map

pub enters_face :
    (player : Option Address) (r : Room) (u : RoomUi)
    → r.player_count ≡ 1
    → shown_of u ≡ face_of r
    → shown_of (enter_player_in_room 2 u) ≡ face_of (seat_enter player r)
unfolding enter_player_in_room seat_enter
enters_face player r u one e = ground (arith, one)

leaves_face :
    (r : Room) (u : RoomUi)
    → r.player_count ≡ 2
    → shown_of u ≡ face_of r
    → shown_of (set_texture wait_texture (enter_player_in_room 1 u)) ≡ face_of (unseat_enter r)
unfolding enter_player_in_room unseat_enter
leaves_face r u two e = ground (arith, two)

passes_face :
    (host : Option Address) (name : WString) (r : Room) (u : RoomUi)
    → r.player_count ≡ 2
    → shown_of u ≡ face_of r
    → shown_of (enter_player_in_room 1 (change_host_name name (set_texture wait_texture u)))
      ≡ face_of (change_host host r)
unfolding enter_player_in_room change_host
passes_face host name r u two e = ground (arith, two)

empty-Mirrors : Mirrors [] []
unfolding lookup
empty-Mirrors title = refl

pub adjusted :
    (s : Server) (cs : ChannelScene) (title : WString) (r : Room) (f : Room → Room)
    (g : RoomUi → RoomUi)
    → IsMirror s cs
    → lookup title s.room_map ≡ some r
    → ((u : RoomUi) → shown_of u ≡ face_of r → shown_of (g u) ≡ face_of (f r))
    → IsMirror (record s { room_map = adjust title f s.room_map }) (with_row title g cs)
adjusted s cs title r f g before there step = record {
  same = adjust-Mirrors s.room_map cs.room_map title r f g before.same there step;
  keyed = adjust-IsKeyed title f s.room_map before.keyed;
  keyed' = adjust-IsKeyed title g cs.room_map before.keyed';
}

-- The deletions of both sides give one result.
same_server :
    (title : WString) (s t t' : Server)
    → Rooms.delete_room title s ≡ some (true, t')
    → Rooms.delete_room title s ≡ some (true, t)
    → t'.room_map ≡ t.room_map
same_server title s t t' e e' = cc

same_scene :
    (title : WString) (cs ds ds' : ChannelScene)
    → delete_room title cs ≡ some ds'
    → delete_room title cs ≡ some ds
    → ds'.room_map ≡ ds.room_map
same_scene title cs ds ds' e e' = cc

-- However rooms are created, entered, left, handed on and closed: rows that are changed in step with the
-- rooms show them, each under its title with its index, numbered and placed by it, and with the number
-- of its players.
pub AreTogether-IsMirror : (s : Server) (cs : ChannelScene) → AreTogether s cs → IsMirror s cs
unfolding create_room new_room_ui
AreTogether-IsMirror _ _ (starts s cs none_here none_there) = record {
  same =
      subst (Mirrors s.room_map) (sym none_there)
        (subst (λ m. Mirrors m []) (sym none_here) empty-Mirrors);
  keyed = subst IsKeyed (sym none_here) tt;
  keyed' = subst IsKeyed (sym none_there) tt;
}
AreTogether-IsMirror _ _ (opens s cs title ps name index host run fresh) =
    let before = AreTogether-IsMirror s cs run in
    record {
      same = insert-Mirrors s.room_map cs.room_map title _ _ before.same fresh refl;
      keyed = insert-IsKeyed title _ s.room_map before.keyed;
      keyed' = insert-IsKeyed title _ cs.room_map before.keyed';
    }
AreTogether-IsMirror _ _ (enters s cs title r player run there one) =
    let before = AreTogether-IsMirror s cs run in
    adjusted s cs title r (seat_enter player) (enter_player_in_room 2) before there
      (λ u. enters_face player r u one)
AreTogether-IsMirror _ _ (leaves s cs title r run there two) =
    adjusted s cs title r unseat_enter (λ u. set_texture wait_texture (enter_player_in_room 1 u))
      (AreTogether-IsMirror s cs run) there (λ u. leaves_face r u two)
AreTogether-IsMirror _ _ (passes s cs title name r host run there two) =
    adjusted s cs title r (change_host host)
      (λ u. enter_player_in_room 1 (change_host_name name (set_texture wait_texture u)))
      (AreTogether-IsMirror s cs run) there (λ u. passes_face host name r u two)
AreTogether-IsMirror _ _ (closes s t cs ds title r run there gone gone') =
    let before = AreTogether-IsMirror s cs run in
    let (t', ds', e, e', same, keyed, keyed') =
      delete_room-Mirrors s cs title r before.keyed before.keyed' before.same there in
    let here = same_server title s t t' e gone in
    let there' = same_scene title cs ds ds' e' gone' in
    record {
      same = subst (Mirrors t.room_map) there' (subst (λ m. Mirrors m ds'.room_map) here same);
      keyed = subst IsKeyed here keyed;
      keyed' = subst IsKeyed there' keyed';
    }
