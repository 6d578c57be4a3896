-- ===== src/Omok/Tests.antt =====
-- Runs of the board and the theorems about it at concrete boards.
use network_omok.Base.{◌+◌, ◌≡◌, refl, inl, inr, ◌↔◌, ◌≢◌, ◌&&◌, arith, leb, ◌==◌, if◌then◌else◌}
use network_omok.Omok.{
  Board, ruld, finished, unfinished, fault, scan_behind, scan_ahead, check, check_finish,
}
use network_omok.Omok.Finish.{FiveThrough, EdgeFree, check_finish-FiveThrough, check_finish_exact}
use network_omok.Omok.Edge.{check_finish_at_edge}

-- Black stones at columns 3 to 7 of row 9.
abbrev five_black : Board
five_black y x = if y == 9 && (leb 3 x && leb x 7) then 1 else 0

-- One black stone in the left column.
abbrev left_stone : Board
left_stone y x = if y == 9 && x == 0 then 1 else 0

-- Black on the rising diagonal from (4, 0) to (0, 4).
abbrev rising_black : Board
rising_black y x = if y + x == 4 then 1 else 0

wins : check_finish five_black 1 (9, 5) ≡ finished
unfolding check_finish check scan_ahead scan_behind
wins = refl

no_win_of_white : check_finish five_black 2 (9, 5) ≡ unfinished
unfolding check_finish check scan_ahead scan_behind
no_win_of_white = refl

leaves_array : check_finish left_stone 1 (9, 0) ≡ fault
unfolding check_finish check scan_ahead scan_behind
leaves_array = refl

-- The rising diagonal that ends in row 0 is five in a row, and its check leaves the array.
missed_diagonal : check ruld rising_black 1 (2, 2) ≡ fault
unfolding check scan_ahead scan_behind
missed_diagonal = refl

edge_free : EdgeFree five_black 1 (9, 5) refl
edge_free t = (ground arith, ground arith)

check_finish-FiveThrough_example : FiveThrough five_black 1 (9, 5) refl
check_finish-FiveThrough_example = check_finish-FiveThrough five_black 1 (9, 5) refl wins

check_finish_exact_example :
    ((check_finish five_black 1 (9, 5) ≡ finished) ↔ FiveThrough five_black 1 (9, 5) refl)
    × (check_finish five_black 1 (9, 5) ≢ fault)
check_finish_exact_example = check_finish_exact five_black 1 (9, 5) refl edge_free

-- A single stone is not five in a row: the scan would have to see two of its cells.
alone : ¬ FiveThrough left_stone 1 (9, 0) refl
alone (inl (u, le, lt, h)) = ground (arith, h 0, h 1)
alone (inr (inl (u, le, lt, h))) = ground (arith, h 0, h 1)
alone (inr (inr (inl (u, le, lt, h)))) = ground (arith, h 0, h 1)
alone (inr (inr (inr (u, le, lt, h)))) = ground (arith, h 0, h 1)

check_finish_at_edge_example : check_finish left_stone 1 (9, 0) ≡ fault
check_finish_at_edge_example = check_finish_at_edge left_stone 1 (9, 0) refl (inr refl) alone
