-- ===== src/Server/Login.antt =====
-- Project/DXServer/User.cpp (ParsingRequCreateAccount, ParsingRequLogin, SendPlayerList,
-- SendRoomList) and OdbcContents.cpp as far as it decides: which code a stored procedure's result
-- gives. What the database answers is an argument of each handler.
pub mod Keep
use network_omok.Base.{
  deref, gets, ◌>>=◌, ◌>>◌, pure, ℕ, suc, ◌+◌, ◌-◌, Bool, true, false, Option, none, some, List, [],
  ◌∷◌, ◌++◌, map, WString, Assoc, sub32, lookup, ◌==◌, ltb, leb, if◌then◌else◌, length, text_eq,
}
use network_omok.Protocol.{
  sc_requ_account, sc_requ_login, sc_requ_player_list, sc_requ_roomlist, RetValue, rv_ok,
  rv_overlap, rv_already_login, rv_error, ret_value,
}
use network_omok.Server.{
  Float, UserInfoDb, Address, Player, Room, User, Field, int32, uint32, float, text, Message,
  Server, M, load, store, load_user, store_user,
}
use network_omok.Server.Players.{find_player, insert_player, allocate_player}
use network_omok.Server.Rooms.{is_some}
use network_omok.Server.Send.{send_packet, broad_cast}

-- What SQLExecute and the procedure's return value give.
pub data SqlReply {ℓ} (A : Type ℓ) : Type ℓ where
  failed : SqlReply A
  returned : ℕ → A → SqlReply A

-- OdbcContents::CreateAccount. Its failure returns `false`, the number 0.
create_account : SqlReply (Unit {0}) → ℕ
create_account failed = 0
create_account (returned v _) = if v == 0 then 0 else if v == 1 then 1 else 2

-- OdbcContents::RequestLogin
unfoldable pub request_login : SqlReply (Unit {0}) → WString → M ℕ
request_login failed id = pure 2
request_login (returned v _) id =
    let granted = (do found ← find_player id; pure (if is_some found then 999 else 0)) in
    if v == 0 then granted else if v == 1 then pure 1 else pure 2

-- `packet << (RV_…)`, an enumerator that is sent as an int32.
abbrev pub ret_field : RetValue → Field
ret_field v = int32 (ret_value v)

-- User::ParsingRequCreateAccount
unfoldable pub requ_create_account : Address → SqlReply (Unit {0}) → M (Unit {0})
unfolding create_account ret_value
requ_create_account me reply =
    let ret = create_account reply in
    let answer = if ret == 0 then rv_ok else if ret == 1 then rv_overlap else rv_error in
    send_packet me (record { protocol = sc_requ_account; fields = ret_field answer ∷ [] })

-- The statistics as they go into a packet.
abbrev pub info_fields : UserInfoDb → List Field
info_fields i =
    text i.id
    ∷ int32 i.total_play_count
    ∷ int32 i.win_game_count
    ∷ int32 i.lose_game_count
    ∷ float i.win_rate
    ∷ []

-- The loop of SendPlayerList over the players but the user's own.
pub player_fields : WString → Assoc Address → M (List Field)
player_fields me [] = pure []
player_fields me ((k, a) ∷ rest) = do
  player ← load a
  others ← player_fields me rest
  pure (if text_eq me player.info.id then others else info_fields player.info ++ others)

-- User::SendPlayerList
unfoldable pub send_player_list : Address → M (Unit {0})
unfolding player_fields
send_player_list me = do
  players ← gets (λ s. s.player_map)
  let others = (do
    user ← load_user me
    listed ← player_fields user.id players
    send_packet me (record {
      protocol = sc_requ_player_list;
      fields = uint32 (sub32 (length players) 1) ∷ listed;
    }))
  if leb (length players) 1 then pure tt else others

-- The columns of SendRoomList: the id of a room's host, and of the player that has entered.
abbrev pub host_name : Room → M WString
host_name r = do a ← deref r.host_player; player ← load a; pure player.info.id

-- L"NoEnterPlayer"
abbrev pub no_enter_player : WString
no_enter_player =
    b'N' ∷ b'o' ∷ b'E' ∷ b'n' ∷ b't' ∷ b'e' ∷ b'r' ∷ b'P' ∷ b'l' ∷ b'a' ∷ b'y' ∷ b'e' ∷ b'r' ∷ []

abbrev pub enter_name : Room → M WString
enter_name r = elim r.enter_player [
  | none ↦ pure no_enter_player
  | some a ↦ do player ← load a; pure player.info.id
]

unfoldable pub collect : (Room → M WString) → Assoc Room → M (List WString)
collect column [] = pure []
collect column ((t, r) ∷ rest) = do x ← column r; xs ← collect column rest; pure (x ∷ xs)

-- A `bool` put into a uInt32.
abbrev pub flag : Bool → ℕ
flag b = if b then 1 else 0

-- The columns of the packet: titles, hosts, indices, numbers of players, states, and the players that
-- have entered.
abbrev pub room_columns : Assoc Room → List WString → List WString → List Field
room_columns rooms hosts enters =
    map (λ e. text e.1.room_title_name) rooms
    ++ (map text hosts
        ++ (map (λ e. uint32 e.1.room_index) rooms
            ++ (map (λ e. uint32 e.1.player_count) rooms
                ++ (map (λ e. uint32 (flag e.1.is_play_game)) rooms ++ map text enters))))

-- User::SendRoomList: the number of rooms, then one column after the other.
unfoldable pub send_room_list : Address → M (Unit {0})
unfolding collect
send_room_list me = do
  rooms ← gets (λ s. s.room_map)
  let listed = (do
    hosts ← collect host_name rooms
    enters ← collect enter_name rooms
    send_packet me (record {
      protocol = sc_requ_roomlist;
      fields = uint32 (length rooms) ∷ room_columns rooms hosts enters;
    }))
  if length rooms == 0 then pure tt else listed

-- OdbcContents::SetPlayerInfo reads the statistics into a fresh UserInfoDB, whose id is empty.
abbrev pub Statistics : Type 0
Statistics = ℕ × ℕ × ℕ × Float

-- The call of SetPlayerInfo in ParsingRequLogin with the two lines behind it: the player gets the
-- statistics and its id, and they go into the packet, if the procedure has returned 0.
unfoldable pub set_player_info : Address → WString → SqlReply Statistics → M (List Field)
set_player_info a id failed = pure []
set_player_info a id (returned v (total, wins, losses, rate)) =
    let info : UserInfoDb = record {
      id = id;
      total_play_count = total;
      win_game_count = wins;
      lose_game_count = losses;
      win_rate = rate;
    } in
    if v == 0 then (store a (λ p. record p { info = info }) >> pure (info_fields info)) else pure []

-- The branch of ParsingRequLogin for a login that is granted, up to `m_id = …`: the new player, in
-- the table under its id.
unfoldable pub register : Address → WString → M Address
register me id = do
  store_user me (λ u. record u { is_login = true })
  a ← allocate_player me
  store a (λ p. record p { info = record p.info { id = id } })
  insert_player id a
  store_user me (λ u. record u { id = id })
  pure a

-- The whole of that branch.
unfoldable pub log_in : Address → WString → SqlReply Statistics → M (Unit {0})
log_in me id stats = do
  a ← register me id
  listed ← set_player_info a id stats
  broad_cast (record { protocol = sc_requ_login; fields = ret_field rv_ok ∷ listed })
  send_player_list me
  send_room_list me

-- User::ParsingRequLogin
unfoldable pub requ_login :
    Address → SqlReply (Unit {0}) → SqlReply Statistics → WString → M (Unit {0})
unfolding request_login log_in ret_value
requ_login me reply stats id = do
  ret ← request_login reply id
  let refusal = if ret == 1 then rv_overlap else if ret == 999 then rv_already_login else rv_error
  let refused : Message = record { protocol = sc_requ_login; fields = ret_field refusal ∷ [] }
  if ret == 0 then log_in me id stats else send_packet me refused
