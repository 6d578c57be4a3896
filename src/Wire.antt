-- ===== src/Wire.antt =====
-- Between the bytes of the network and the requests of the server: the packets that a client puts
-- together (the CS_ structures of Project/OmokProtocol/OmokProtocol.h), and what the handlers of
-- Project/DXServer/User.cpp read from a packet.
pub mod Reading
pub mod Serve
pub mod Password
mod Tests
use network_omok.Base.{
  ℕ, suc, ◌+◌, ◌*◌, ◌-◌, Option, none, some, List, [], ◌∷◌, ◌++◌, map, WString, ◌==◌, leb,
  if◌then◌else◌, length,
}
use network_omok.Protocol.{
  protocol_id, cs_requ_account, cs_requ_login, cs_requ_create_room, cs_requ_room_entry,
  cs_requ_player_ready, cs_requ_player_room_exit, cs_requ_player_start, cs_requ_put_stone,
}
use network_omok.Omok.{Pos}
use network_omok.Net.Packet.{
  Packet, new_packet, number_bytes, peek, packet_header_size, Item, number, wide, number_of,
  wide_text, put_items, get_item,
}
use network_omok.Server.{Float, Address, Server, M, Field, int32, uint32, float, text, Message}
use network_omok.Server.Login.{SqlReply, Statistics}
use network_omok.Server.Requests.{max_rooms}
use network_omok.Server.Dispatch.{
  Request, account, login, create_room, room_entry, player_ready, player_room_exit, player_start,
  requ_stone, other, packet_parsing,
}

-- What a client asks for, with the fields of the packet's structure.
pub data ClientPacket : Type 0 where
  account_packet : WString → WString → WString → ClientPacket
  login_packet : WString → WString → ClientPacket
  create_room_packet : WString → WString → WString → ClientPacket
  room_entry_packet : WString → WString → ClientPacket
  player_ready_packet : WString → ClientPacket
  player_room_exit_packet : WString → WString → ClientPacket
  player_start_packet : WString → ClientPacket
  put_stone_packet : WString → WString → WString → Pos → ℕ → ClientPacket

-- The protocol number and the fields in the order in which they are put into the packet.
abbrev pub message_of : ClientPacket → Message
message_of (account_packet id ps age) = record {
  protocol = cs_requ_account;
  fields = text id ∷ text ps ∷ text age ∷ [];
}
message_of (login_packet id ps) = record {
  protocol = cs_requ_login;
  fields = text id ∷ text ps ∷ [];
}
message_of (create_room_packet host title ps) = record {
  protocol = cs_requ_create_room;
  fields = text host ∷ text title ∷ text ps ∷ [];
}
message_of (room_entry_packet title id) = record {
  protocol = cs_requ_room_entry;
  fields = text title ∷ text id ∷ [];
}
message_of (player_ready_packet host) = record {
  protocol = cs_requ_player_ready;
  fields = text host ∷ [];
}
message_of (player_room_exit_packet title exit) = record {
  protocol = cs_requ_player_room_exit;
  fields = text title ∷ text exit ∷ [];
}
message_of (player_start_packet title) = record {
  protocol = cs_requ_player_start;
  fields = text title ∷ [];
}
message_of (put_stone_packet put another title p stone) = record {
  protocol = cs_requ_put_stone;
  fields = text put ∷ text another ∷ text title ∷ uint32 p.0 ∷ uint32 p.1 ∷ uint32 stone ∷ [];
}

-- What operator<< puts into a packet for a field, with the machine's bits of a float.
abbrev item_of : (Float → ℕ) → Field → Item
item_of bits (int32 n) = number 4 n
item_of bits (uint32 n) = number 4 n
item_of bits (float f) = number 4 (bits f)
item_of bits (text us) = wide us

abbrev pub items_of : (Float → ℕ) → Message → List Item
items_of bits m = map (item_of bits) m.fields

-- `Packet packet; packet.SetProtocolID(…); packet << …`
pub pack : (Float → ℕ) → Message → Option Packet
pack bits m = put_items (items_of bits m) (new_packet (protocol_id m.protocol))

-- The bytes of DEFAULT_PACKET, m_len of them, which SendPacket gives to the socket.
abbrev pub packet_bytes : Packet → List ℕ
packet_bytes p =
    number_bytes 2 p.len
    ++ (number_bytes 2 p.type ++ peek p.data_field 0 (p.len - packet_header_size))

-- The answers of the database, which may depend on all that the server has done.
pub record Database : Type 0 where
  pub account_reply : Server → WString → WString → WString → SqlReply (Unit {0})
  pub login_reply : Server → WString → WString → SqlReply (Unit {0})
  pub info_reply : Server → WString → SqlReply Statistics

-- `packet >> x` for a text and for a uInt32, and what is done with it and with the packet behind it.
abbrev with_text : Option (Item × Packet) → (WString → Packet → Option Request) → Option Request
with_text none k = none
with_text (some (number n m, q)) k = none
with_text (some (wide us, q)) k = k us q

abbrev with_number : Option (Item × Packet) → (ℕ → Packet → Option Request) → Option Request
with_number none k = none
with_number (some (number n m, q)) k = k m q
with_number (some (wide us, q)) k = none

pub get_text : Packet → (WString → Packet → Option Request) → Option Request
get_text p k = with_text (get_item wide_text p) k

pub get_uint32 : Packet → (ℕ → Packet → Option Request) → Option Request
get_uint32 p k = with_number (get_item (number_of 4) p) k

-- What the handler of m_executeFunc reads first, with the answers of the database to it. A room that
-- would be one too many is refused before the packet is read.
pub read_fields : ℕ → Database → Server → Packet → Option Request
unfolding get_text get_uint32 protocol_id
read_fields type db s p =
    if type == protocol_id cs_requ_account
    then get_text p (λ id q.
      get_text q (λ ps q. get_text q (λ age q. some (account (db.account_reply s id ps age)))))
    else if type == protocol_id cs_requ_login
    then get_text p
        (λ id q. get_text q (λ ps q. some (login (db.login_reply s id ps) (db.info_reply s id) id)))
    else if type == protocol_id cs_requ_create_room
    then (if leb max_rooms (length s.room_map)
        then some (create_room [] [] [])
        else get_text p (λ host q.
          get_text q (λ title q. get_text q (λ ps q. some (create_room host title ps)))))
    else if type == protocol_id cs_requ_room_entry
    then get_text p (λ title q. get_text q (λ id q. some (room_entry title id)))
    else if type == protocol_id cs_requ_player_ready
    then get_text p (λ host q. some (player_ready host))
    else if type == protocol_id cs_requ_player_room_exit
    then get_text p (λ title q. get_text q (λ exit q. some (player_room_exit title exit)))
    else if type == protocol_id cs_requ_player_start
    then get_text p (λ title q. some (player_start title))
    else if type == protocol_id cs_requ_put_stone
    then get_text p (λ put q. get_text q (λ another q. get_text q (λ title q. get_uint32 q (λ y q.
      get_uint32 q
        (λ x q. get_uint32 q (λ stone q. some (requ_stone put another title (y, x) stone)))))))
    else some (other type)

pub read_request : Database → Server → Packet → Option Request
unfolding read_fields
read_request db s p = read_fields p.type db s p

-- User::PacketParsing on a packet.
pub handle_packet : Address → Database → Packet → M (Unit {0})
unfolding read_request packet_parsing
handle_packet me db p s = elim (read_request db s p) [
  | none ↦ none
  | some r ↦ packet_parsing me r s
]
