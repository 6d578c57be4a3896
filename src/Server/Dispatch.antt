-- ===== src/Server/Dispatch.antt =====
-- Project/DXServer/User.cpp: the table m_executeFunc, PacketParsing, and what else happens to a
-- user, the end of its session.
pub mod Invariant
use network_omok.Base.{pure, ◌>>=◌, ◌>>◌, ℕ, Option, none, some, List, [], ◌∷◌, WString}
use network_omok.Omok.{Pos}
use network_omok.Server.{Address, Server, M}
use network_omok.Server.Login.{SqlReply, Statistics, requ_create_account, requ_login}
use network_omok.Server.Requests.{requ_create_room, requ_room_entry, requ_player_ready}
use network_omok.Server.Game.{requ_player_start, requ_put_stone}
use network_omok.Server.Leave.{requ_player_room_exit, event_before_delete}

-- A packet by its protocol number, with the fields that its handler reads, and for a handler that
-- asks the database with the answers. `other` is a number that the table does not have.
pub data Request : Type 0 where
  account : SqlReply (Unit {0}) → Request
  login : SqlReply (Unit {0}) → SqlReply Statistics → WString → Request
  create_room : WString → WString → WString → Request
  room_entry : WString → WString → Request
  player_ready : WString → Request
  player_room_exit : WString → WString → Request
  player_start : WString → Request
  requ_stone : WString → WString → WString → Pos → ℕ → Request
  other : ℕ → Request

-- User::PacketParsing
unfoldable pub packet_parsing : Address → Request → M (Unit {0})
packet_parsing me (account reply) = requ_create_account me reply
packet_parsing me (login reply stats id) = requ_login me reply stats id
packet_parsing me (create_room host title ps) = requ_create_room me host title ps
packet_parsing me (room_entry title id) = requ_room_entry me title id
packet_parsing me (player_ready host) = requ_player_ready me host
packet_parsing me (player_room_exit title exit) = requ_player_room_exit me title exit
packet_parsing me (player_start title) = requ_player_start me title
packet_parsing me (requ_stone put another title p stone) =
    requ_put_stone me put another title p stone
packet_parsing me (other n) = pure tt
