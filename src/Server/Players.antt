-- ===== src/Server/Players.antt =====
-- Project/DXServer/Player.cpp (statistics and flags) and PlayerManager.cpp.
pub mod Tally
use network_omok.Base.{
  gets, modify, ◌>>=◌, ◌>>◌, pure, ℕ, ◌+◌, Bool, false, Option, none, some, [], WString, add32,
  lookup, insert, erase, ◌==◌, if◌then◌else◌,
}
use network_omok.Omok.{clear_omok}
use network_omok.Protocol.{ps_channel}
use network_omok.Server.{
  Float, of_database, of_int, float_div, float_mul, UserInfoDb, Address, Player, Server, M, load,
  store,
}

-- UserInfoDB()
abbrev new_info : UserInfoDb
new_info = record {
  id = [];
  total_play_count = 0;
  win_game_count = 0;
  lose_game_count = 0;
  win_rate = of_int 0;
}

-- Player(User*)
abbrev new_player : Address → Player
new_player user = record {
  info = new_info;
  client = user;
  is_play_game = false;
  player_scene = ps_channel;
  omok = clear_omok;
}

-- CalculateRate, which reads the counts of the object and not its arguments.
abbrev calculate_rate : UserInfoDb → Float
calculate_rate info =
    float_mul
      (float_div (of_int info.win_game_count)
        (of_int (add32 info.win_game_count info.lose_game_count)))
      (of_int 100)

-- The counts are 32-bit patterns.
unfoldable pub win_game : UserInfoDb → UserInfoDb
win_game info =
    let counted : UserInfoDb = record info {
      total_play_count = add32 info.total_play_count 1;
      win_game_count = add32 info.win_game_count 1;
    } in
    record counted { win_rate = calculate_rate counted }

unfoldable pub lose_game : UserInfoDb → UserInfoDb
lose_game info =
    let counted : UserInfoDb = record info {
      total_play_count = add32 info.total_play_count 1;
      lose_game_count = add32 info.lose_game_count 1;
    } in
    record counted { win_rate = calculate_rate counted }

abbrev pub set_play_game : Bool → Player → Player
set_play_game value p = record p { is_play_game = value }

abbrev pub set_player_scene : ℕ → Player → Player
set_player_scene scene p = record p { player_scene = scene }

-- PlayerManager::FindPlayer; `none` is nullptr.
abbrev pub find_player : WString → M (Option Address)
find_player id = gets (λ s. lookup id s.player_map)

-- PlayerManager::InsertPlayer
abbrev pub insert_player : WString → Address → M (Unit {0})
insert_player id a = modify (λ s. record s { player_map = insert id a s.player_map })

-- `new Player(user)`
abbrev pub allocate_player : Address → M Address
allocate_player user s = some (
  s.next_address,
  record s {
    heap = λ a. if s.next_address == a then some (new_player user) else s.heap a;
    next_address = s.next_address + 1;
  },
)

abbrev free_player : Address → M (Unit {0})
free_player a = modify (λ s. record s { heap = λ b. if a == b then none else s.heap b })

-- PlayerManager::DeletePlayer
abbrev pub delete_player : WString → M (Unit {0})
delete_player id = do
  found ← find_player id
  elim found [
    | none ↦ pure tt
    | some a ↦ do free_player a; modify (λ s. record s { player_map = erase id s.player_map })
  ]
