-- ===== src/Client/Dispatch.antt =====
-- Project/DXClient/ClientServer.cpp: ProcessRecvPacket, for messages as the server makes them. A
-- message with other fields than its handler reads is left open: `none`.
pub mod Turns
pub mod Faults
pub mod Settled
pub mod Keep
pub mod Home
pub mod Packets
pub mod Listing
pub mod Told
pub mod Entered
pub mod Joined
pub mod Opened
use network_omok.Base.{
  ℕ, Bool, true, false, Option, none, some, List, [], ◌∷◌, WString, if◌then◌else◌, ◌==◌, State,
  ◌>>=◌, ◌>>◌, undefined, pure, text_eq, zero, suc, deref,
}
use network_omok.Protocol.{
  OmProtocol, sc_requ_account, sc_requ_login, sc_requ_player_list, sc_requ_create_room,
  sc_requ_room_entry, sc_requ_player_ready, sc_requ_player_start, sc_requ_put_stone, sc_requ_finish,
  sc_requ_host_player_room_exit, sc_requ_enter_player_room_exit, sc_requ_roomlist,
  sc_requ_player_exit,
}
use network_omok.Server.{Field, int32, uint32, float, text, Message}
use network_omok.Client.{UserInfo, Client, Action}
use network_omok.Client.Lobby.{
  unless_login_scene, recv_create_account, recv_login_result, recv_player_list, recv_create_room,
  recv_room_list, recv_player_exit, recv_enter_user,
}
use network_omok.Client.Play.{recv_player_ready, recv_game_start, recv_put_stone, recv_finish_game}
use network_omok.Client.Columns.{read_rows}
use network_omok.Client.Exits.{recv_host_exit, recv_enter_exit}

-- `packet >> x` for the next field, and what is done with it and with the fields behind it.
pub get_text : List Field → (WString → List Field → Action (Unit {0})) → Action (Unit {0})
get_text (text t ∷ rest) k = k t rest
get_text _ k = undefined

pub get_int32 : List Field → (ℕ → List Field → Action (Unit {0})) → Action (Unit {0})
get_int32 (int32 n ∷ rest) k = k n rest
get_int32 _ k = undefined

pub get_uint32 : List Field → (ℕ → List Field → Action (Unit {0})) → Action (Unit {0})
get_uint32 (uint32 n ∷ rest) k = k n rest
get_uint32 _ k = undefined

-- `packet >> name >> total >> win >> lose >> rate`
get_info : List Field → Option (UserInfo × List Field)
get_info (text name ∷ int32 total ∷ int32 wins ∷ int32 losses ∷ float rate ∷ rest) = some (
  record {
    name = name;
    total_play_game_count = total;
    win_game_count = wins;
    lose_game_count = losses;
    win_rate = rate;
  },
  rest,
)
get_info _ = none

-- The loop of RecvPlayerList over `n` players.
pub get_infos : ℕ → List Field → Option (List UserInfo)
unfolding get_info
get_infos zero fs = some []
get_infos (suc n) fs = elim (get_info fs) [
  | none ↦ none
  | some (info, rest) ↦ elim (get_infos n rest) [ none ↦ none | some infos ↦ some (info ∷ infos) ]
]

-- The statistics behind the result of a login, if there are any.
abbrev only_info : Option (UserInfo × List Field) → Option UserInfo
only_info none = none
only_info (some (info, rest)) = some info

-- One turn of the loop of ProcessRecvPacket: the case of a protocol number, with the reading of the
-- packet that its handler does.
pub process_fields : OmProtocol → List Field → Action (Unit {0})
unfolding get_text get_int32 get_uint32 get_infos get_info recv_create_account recv_login_result
    recv_player_list recv_room_list read_rows recv_create_room recv_enter_user recv_host_exit
    recv_enter_exit recv_player_exit recv_player_ready recv_game_start recv_put_stone
    recv_finish_game
process_fields sc_requ_account fs = get_int32 fs (λ ret _. recv_create_account ret)
process_fields sc_requ_login fs =
    get_int32 fs (λ ret rest. recv_login_result ret (only_info (get_info rest)))
process_fields sc_requ_player_list fs =
    get_uint32 fs (λ count rest. (do infos ← deref (get_infos count rest); recv_player_list infos))
process_fields sc_requ_roomlist fs =
    get_uint32 fs (λ count rest. (do rows ← deref (read_rows count rest); recv_room_list rows))
process_fields sc_requ_create_room fs = get_text fs (λ host rest.
    if text_eq host (b'N' ∷ b'o' ∷ [])
    then pure tt
    else get_text rest
        (λ title rest. get_uint32 rest (λ index _. recv_create_room host title index)))
process_fields sc_requ_room_entry fs = get_int32 fs (λ entry rest.
    if entry == 0
    then pure tt
    else get_text rest (λ host rest.
      get_text rest (λ enter rest. get_text rest (λ title _. recv_enter_user host enter title))))
process_fields sc_requ_host_player_room_exit fs = get_text fs (λ title rest.
    get_text rest (λ exit rest. get_int32 rest (λ empty_room rest.
      if empty_room == 0
      then recv_host_exit title exit none
      else get_text rest (λ new_host _. recv_host_exit title exit (some new_host)))))
process_fields sc_requ_enter_player_room_exit fs =
    get_text fs (λ title rest. get_text rest (λ exit _. recv_enter_exit title exit))
process_fields sc_requ_player_exit fs = get_text fs (λ id _. recv_player_exit id)
process_fields sc_requ_player_ready fs = recv_player_ready
process_fields sc_requ_player_start fs = get_int32 fs (λ start rest.
    if start == 0
    then pure tt
    else get_text rest (λ title rest. get_text rest (λ host _. recv_game_start title host)))
process_fields sc_requ_put_stone fs = get_uint32 fs (λ y rest.
    get_uint32 rest (λ x rest. get_uint32 rest (λ stone_type _. recv_put_stone (y, x) stone_type)))
process_fields sc_requ_finish fs =
    get_text fs (λ winner rest. get_text rest (λ title _. recv_finish_game winner title))
process_fields _ fs = pure tt

unfoldable pub process_packet : Message → Action (Unit {0})
unfolding process_fields
process_packet m = process_fields m.protocol m.fields

-- The messages of the pool, in order.
unfoldable pub process_all : List Message → Action (Unit {0})
unfolding process_packet
process_all [] = pure tt
process_all (m ∷ rest) = do process_packet m; process_all rest
