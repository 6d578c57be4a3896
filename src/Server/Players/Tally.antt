-- ===== src/Server/Players/Tally.antt =====
-- The three counts of a player over its games.
use network_omok.Base.{
  ℕ, ◌+◌, ◌<◌, ◌≡◌, Bool, true, false, List, [], ◌∷◌, length, add32, u32_mod, ◌%◌, arith,
}
use network_omok.Server.{UserInfoDb}
use network_omok.Server.Players.{win_game, lose_game}

-- WinGame or LoseGame for each game.
abbrev pub games : List Bool → UserInfoDb → UserInfoDb
games [] i = i
games (true ∷ gs) i = games gs (win_game i)
games (false ∷ gs) i = games gs (lose_game i)

-- The number of games won.
abbrev pub wins : List Bool → ℕ
wins [] = 0
wins (true ∷ gs) = wins gs + 1
wins (false ∷ gs) = wins gs

-- The total is the sum of the wins and the losses, on 32 bits.
abbrev pub IsTallied : UserInfoDb → Type 0
IsTallied i = i.total_play_count ≡ add32 i.win_game_count i.lose_game_count

-- After any games the total has grown by their number and the wins by those won, both modulo 2 ^ 32,
-- the total is still the sum of wins and losses, and the player keeps its id.
pub games-IsTallied :
    (gs : List Bool) (i : UserInfoDb)
    → IsTallied i
    → i.total_play_count < u32_mod
    → i.win_game_count < u32_mod
    → IsTallied (games gs i)
      × ((games gs i).total_play_count ≡ (i.total_play_count + length gs) % u32_mod)
      × ((games gs i).win_game_count ≡ (i.win_game_count + wins gs) % u32_mod)
      × ((games gs i).id ≡ i.id)
unfolding win_game lose_game
games-IsTallied [] i h a b = ground arith
games-IsTallied (true ∷ gs) i h a b =
    ground (arith, games-IsTallied gs (win_game i) (omega arith) (omega arith) (omega arith))
games-IsTallied (false ∷ gs) i h a b =
    ground (arith, games-IsTallied gs (lose_game i) (omega arith) (omega arith) (omega arith))
