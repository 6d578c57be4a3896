-- ===== src/Server/Tests/Games.antt =====
-- Games: a stone, a win, a start, and the counts.
use network_omok.Base.{
  leb, ◌&&◌, ◌≡◌, refl, inl, true, false, none, some, [], ◌∷◌, lookup, adjust, text_eq, arith,
  if◌then◌else◌, ◌==◌, add32,
}
use network_omok.Omok.{
  Board, finished, unfinished, put_stone, check_finish, check, scan_ahead, scan_behind, clear_omok,
}
use network_omok.Server.{Player, Server}
use network_omok.Server.Players.{win_game, lose_game}
use network_omok.Server.Players.Tally.{games, games-IsTallied, IsTallied}
use network_omok.Server.Rooms.{set_room_state}
use network_omok.Server.Game.{requ_put_stone, store_stone, conclude, finish_game}
use network_omok.Server.Game.Outcome.{won, lost, saved, finish_game-Outcome}
use network_omok.Server.Game.Stone.{requ_put_stone-Unfinished, requ_put_stone-Finished}
use network_omok.Server.Tests.{id_a, id_b, title_r, player, room, full, outcome}

finish_game-Outcome_example :
    (t : Server) × (finish_game title_r 0 1 full ≡ some (tt, t))
    × (t.heap 0 ≡ some (won (player id_a 10)))
    × (t.heap 1 ≡ some (lost (player id_b 11)))
    × (t.room_map ≡ adjust title_r (set_room_state false) full.room_map)
    × (t.db_calls
        ≡ saved (win_game (player id_a 10).info) ∷ saved (lose_game (player id_b 11).info) ∷ [])
unfolding lookup text_eq
finish_game-Outcome_example =
    finish_game-Outcome title_r 0 1 full room (player id_a 10) (player id_b 11) (ground arith) refl
      (inl (refl, refl)) refl refl

games-IsTallied_example :
    IsTallied (games (true ∷ false ∷ []) (player id_a 10).info)
    × ((games (true ∷ false ∷ []) (player id_a 10).info).total_play_count ≡ 5)
    × ((games (true ∷ false ∷ []) (player id_a 10).info).win_game_count ≡ 3)
    × ((games (true ∷ false ∷ []) (player id_a 10).info).id ≡ id_a)
games-IsTallied_example =
    games-IsTallied (true ∷ false ∷ []) (player id_a 10).info refl (ground arith) (ground arith)

-- A puts a stone in the middle of the board.
abbrev stone_put : Server
stone_put = outcome (requ_put_stone 10 id_a id_b title_r (9, 9) 0) full

puts_stone : requ_put_stone 10 id_a id_b title_r (9, 9) 0 full ≡ some (tt, stone_put)
unfolding requ_put_stone store_stone put_stone conclude check_finish check scan_ahead scan_behind
    lookup text_eq clear_omok
puts_stone = refl

-- The empty board with that stone.
abbrev one_stone : Board
one_stone y x = if y == 9 && x == 9 then add32 0 1 else clear_omok y x

puts_one : put_stone clear_omok 0 (9, 9) ≡ some one_stone
unfolding put_stone
puts_one = refl

goes_on : check_finish one_stone 1 (9, 9) ≡ unfinished
unfolding check_finish check scan_ahead scan_behind clear_omok
goes_on = refl

finds : (lookup id_a full.player_map ≡ some 0) × (lookup id_b full.player_map ≡ some 1)
unfolding lookup text_eq
finds = (refl, refl)

requ_put_stone-Unfinished_example :
    (t : Server) × (requ_put_stone 10 id_a id_b title_r (9, 9) 0 full ≡ some (tt, t))
    × (t.heap 0 ≡ some (record (player id_a 10) { omok = one_stone }))
    × (t.heap 1 ≡ some (record (player id_b 11) { omok = one_stone }))
    × (t.room_map ≡ full.room_map)
    × (t.db_calls ≡ [])
requ_put_stone-Unfinished_example =
    requ_put_stone-Unfinished 10 id_a id_b title_r (9, 9) 0 full 0 1 (player id_a 10)
      (player id_b 11) one_stone one_stone finds.0 finds.1 (ground arith) refl refl puts_one
      puts_one refl refl goes_on

-- Four black stones in row 9, on the boards of both players.
abbrev four : Board
four y x = if y == 9 && (leb 3 x && leb x 6) then 1 else 0

abbrev five : Board
five y x = if y == 9 && x == 7 then add32 0 1 else four y x

abbrev with_four : Player → Player
with_four p = record p { omok = four }

abbrev late : Server
late = record full {
  heap = λ a.
      if a == 0
      then some (with_four (player id_a 10))
      else (if a == 1 then some (with_four (player id_b 11)) else none);
}

puts_fifth : put_stone four 0 (9, 7) ≡ some five
unfolding put_stone
puts_fifth = refl

wins_game : check_finish five 1 (9, 7) ≡ finished
unfolding check_finish check scan_ahead scan_behind
wins_game = refl

room_is_there : lookup title_r late.room_map ≡ some room
unfolding lookup text_eq
room_is_there = refl

requ_put_stone-Finished_example :
    (t : Server) × (requ_put_stone 10 id_a id_b title_r (9, 7) 0 late ≡ some (tt, t))
    × (t.heap 0 ≡ some (won (with_four (player id_a 10))))
    × (t.heap 1 ≡ some (lost (with_four (player id_b 11))))
    × (t.room_map ≡ adjust title_r (set_room_state false) late.room_map)
    × (t.db_calls
        ≡ saved (win_game (player id_a 10).info) ∷ saved (lose_game (player id_b 11).info) ∷ [])
requ_put_stone-Finished_example =
    requ_put_stone-Finished 10 id_a id_b title_r (9, 7) 0 late 0 1 (with_four (player id_a 10))
      (with_four (player id_b 11)) five five finds.0 finds.1 (ground arith) refl refl puts_fifth
      puts_fifth refl refl room wins_game room_is_there (inl (refl, refl))
