-- ===== src/Server/Game.antt =====
-- Project/DXServer/User.cpp: ParsingRequPlayerStart and ParsingRequPutStone.
pub mod Outcome
pub mod Stone
use network_omok.Base.{
  deref, undefined, modify, ◌>>=◌, ◌>>◌, pure, ℕ, ◌+◌, Bool, true, false, Option, none, some, List,
  [], ◌∷◌, ◌++◌, WString, ◌==◌, if◌then◌else◌, lookup, adjust,
}
use network_omok.Omok.{
  Board, Pos, put_stone, clear_omok, Verdict, finished, unfinished, fault, check_finish,
}
use network_omok.Protocol.{sc_requ_player_start, sc_requ_put_stone, sc_requ_finish}
use network_omok.Server.{
  UserInfoDb, Address, Player, Room, User, int32, uint32, text, Message, DbCall, update_user_info,
  Server, M, load, store,
}
use network_omok.Server.Players.{find_player, set_play_game, win_game, lose_game}
use network_omok.Server.Rooms.{update_room, set_room_state}
use network_omok.Server.Requests.{the_room}
use network_omok.Server.Send.{send_packet, broad_cast}

abbrev start_refused : Message
start_refused = record { protocol = sc_requ_player_start; fields = int32 0 ∷ [] }

abbrev pub started : WString → WString → Message
started title host = record {
  protocol = sc_requ_player_start;
  fields = int32 1 ∷ text title ∷ text host ∷ [];
}

-- User::ParsingRequPlayerStart. The players are set playing before the room is asked.
unfoldable pub requ_player_start : Address → WString → M (Unit {0})
unfolding broad_cast
requ_player_start me title = do
  room ← the_room title
  host ← deref room.host_player
  store host (set_play_game true)
  enter ← deref room.enter_player
  store enter (set_play_game true)
  host_player ← load host
  let refuse = broad_cast start_refused
  let start =
      (update_room title (set_room_state true) >> broad_cast (started title host_player.info.id))
  if room.is_play_game then refuse else start

-- Player::PutStone on the object.
unfoldable pub store_stone : Address → ℕ → Pos → M (Unit {0})
unfolding put_stone
store_stone a stone_type p = do
  player ← load a
  elim (put_stone player.omok stone_type p) [
    | none ↦ undefined
    | some board ↦ store a (λ q. record q { omok = board })
  ]

abbrev pub put_message : Pos → ℕ → Message
put_message p stone_type = record {
  protocol = sc_requ_put_stone;
  fields = uint32 p.0 ∷ uint32 p.1 ∷ uint32 stone_type ∷ [];
}

abbrev pub finish_message : WString → WString → Message
finish_message winner title = record {
  protocol = sc_requ_finish;
  fields = text winner ∷ text title ∷ [];
}

-- OdbcContents::UpdateUserInfo with the statistics of a player.
unfoldable pub save_info : WString → UserInfoDb → M (Unit {0})
save_info id i = modify (λ s. record s {
  db_calls =
      s.db_calls
      ++ (update_user_info id i.total_play_count i.win_game_count i.lose_game_count i.win_rate
          ∷ []);
})

-- The two boards are cleared, and the game goes into the statistics of both players.
unfoldable pub settle : Address → Address → M (Unit {0})
unfolding win_game lose_game clear_omok
settle put another = do
  store put (λ p. record p { omok = clear_omok })
  store another (λ p. record p { omok = clear_omok })
  store put (λ p. record p { info = win_game p.info })
  store another (λ p. record p { info = lose_game p.info })

-- The room and its two players no longer play.
unfoldable pub stop_game : WString → M (Unit {0})
unfolding set_room_state
stop_game title = do
  room ← the_room title
  update_room title (set_room_state false)
  host ← deref room.host_player
  store host (set_play_game false)
  enter ← deref room.enter_player
  store enter (set_play_game false)

unfoldable pub save_player : Address → M (Unit {0})
save_player a = do player ← load a; save_info player.info.id player.info

-- The part of ParsingRequPutStone for a stone that wins.
unfoldable pub finish_game : WString → Address → Address → M (Unit {0})
finish_game title put another = do
  settle put another
  winner ← load put
  stop_game title
  broad_cast (finish_message winner.info.id title)
  save_player put
  save_player another

-- The number of a stone on the board: `type` of ParsingRequPutStone.
abbrev pub stone_of : ℕ → ℕ
stone_of stone_type = if stone_type == 0 then 1 else 2

-- `if (pPutPlayer->CheckFinish(…))`
unfoldable pub conclude : WString → Address → Address → Verdict → M (Unit {0})
conclude title put another finished = finish_game title put another
conclude title put another unfinished = pure tt
conclude title put another fault = undefined

-- User::ParsingRequPutStone
unfoldable pub requ_put_stone : Address → WString → WString → WString → Pos → ℕ → M (Unit {0})
requ_put_stone me put_id another_id title p stone_type = do
  put_found ← find_player put_id
  another_found ← find_player another_id
  put ← deref put_found
  store_stone put stone_type p
  another ← deref another_found
  store_stone another stone_type p
  send_packet me (put_message p stone_type)
  another_player ← load another
  send_packet another_player.client (put_message p stone_type)
  put_player ← load put
  conclude title put another (check_finish put_player.omok (stone_of stone_type) p)
