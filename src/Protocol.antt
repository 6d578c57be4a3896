-- ===== src/Protocol.antt =====
-- The protocol numbers, return codes and scenes of Project/OmokProtocol/OmokProtocol.h.
use network_omok.Base.{ℕ}

-- enum class OmProtocol
pub data OmProtocol : Type 0 where
  cs_requ_account : OmProtocol
  sc_requ_account : OmProtocol
  cs_requ_login : OmProtocol
  sc_requ_login : OmProtocol
  sc_requ_player_list : OmProtocol
  cs_requ_create_room : OmProtocol
  sc_requ_create_room : OmProtocol
  cs_requ_room_entry : OmProtocol
  sc_requ_room_entry : OmProtocol
  sc_requ_player_entry : OmProtocol
  cs_requ_player_ready : OmProtocol
  sc_requ_player_ready : OmProtocol
  cs_requ_player_start : OmProtocol
  sc_requ_player_start : OmProtocol
  cs_requ_put_stone : OmProtocol
  sc_requ_put_stone : OmProtocol
  sc_requ_finish : OmProtocol
  cs_requ_player_room_exit : OmProtocol
  sc_requ_host_player_room_exit : OmProtocol
  sc_requ_enter_player_room_exit : OmProtocol
  sc_requ_roomlist : OmProtocol
  sc_requ_player_exit : OmProtocol

-- The enumerators count up from 1000.
unfoldable pub protocol_id : OmProtocol → ℕ
protocol_id cs_requ_account = 1000
protocol_id sc_requ_account = 1001
protocol_id cs_requ_login = 1002
protocol_id sc_requ_login = 1003
protocol_id sc_requ_player_list = 1004
protocol_id cs_requ_create_room = 1005
protocol_id sc_requ_create_room = 1006
protocol_id cs_requ_room_entry = 1007
protocol_id sc_requ_room_entry = 1008
protocol_id sc_requ_player_entry = 1009
protocol_id cs_requ_player_ready = 1010
protocol_id sc_requ_player_ready = 1011
protocol_id cs_requ_player_start = 1012
protocol_id sc_requ_player_start = 1013
protocol_id cs_requ_put_stone = 1014
protocol_id sc_requ_put_stone = 1015
protocol_id sc_requ_finish = 1016
protocol_id cs_requ_player_room_exit = 1017
protocol_id sc_requ_host_player_room_exit = 1018
protocol_id sc_requ_enter_player_room_exit = 1019
protocol_id sc_requ_roomlist = 1020
protocol_id sc_requ_player_exit = 1021

-- enum RETVALUE
pub data RetValue : Type 0 where
  rv_ok rv_overlap rv_already_login rv_error : RetValue

unfoldable pub ret_value : RetValue → ℕ
ret_value rv_ok = 0
ret_value rv_overlap = 1
ret_value rv_already_login = 2
ret_value rv_error = 3

-- enum PlayerScene
abbrev pub ps_channel : ℕ
ps_channel = 200

abbrev pub ps_gamescene : ℕ
ps_gamescene = 300
