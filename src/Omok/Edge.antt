-- ===== src/Omok/Edge.antt =====
-- The first row and column: `originY < 0` and `originX < 0` never hold of unsigned numbers, so a
-- loop that goes behind a stone there reads outside of the array.
use network_omok.Base.{ℕ, zero, suc, ◌+◌, ◌≡◌, ◌⊎◌, inl, inr, ◌≢◌, arith, false}
use network_omok.Omok.{
  Board, Pos, Line, rrll, dduu, in_board, unfinished, fault, scan_behind, scan_ahead, check,
  check_finish,
}
use network_omok.Omok.Hits.{Hit}
use network_omok.Omok.Finish.{FiveThrough, check_finish-FiveThrough}

module _ (l : Line) (b : Board) (stone : ℕ) where
  scan_behind_outside :
      (n : ℕ) (p : Pos) (fin : ℕ)
      → l.behind_stop p ≡ false
      → in_board p ≡ false
      → scan_behind l b stone (suc n) p fin ≡ fault
  unfolding scan_behind
  scan_behind_outside n p fin h e = ground arith

  scan_ahead_outside :
      (put : Pos) (n : ℕ) (p : Pos) (fin : ℕ)
      → l.behind_stop (l.behind put) ≡ false
      → in_board (l.behind put) ≡ false
      → fin + suc n ≡ 5
      → scan_ahead l b stone put (suc n) p fin ≢ unfinished
  unfolding scan_ahead
  scan_ahead_outside put zero p fin s out e h =
      ground (arith, scan_behind_outside zero (l.behind put) fin s out)
  scan_ahead_outside put (suc n) p fin s out e h = ground (
    arith,
    scan_behind_outside (suc n) (l.behind put) fin s out,
    scan_ahead_outside put n (l.ahead p) (fin + 1) s out,
  )

  check_outside :
      (put : Pos)
      → l.behind_stop (l.behind put) ≡ false
      → in_board (l.behind put) ≡ false
      → check l b stone put ≢ unfinished
  unfolding check
  check_outside put s out h = scan_ahead_outside put 4 put 0 s out (omega arith) h

-- On the first row or column CheckFinish reads outside of the array for every stone put there that
-- does not win, whatever else is on the board.
pub check_finish_at_edge :
    (b : Board) (stone : ℕ) (p : Pos) (hit : Hit b stone p)
    → (p.0 ≡ 0) ⊎ (p.1 ≡ 0)
    → ¬ FiveThrough b stone p hit
    → check_finish b stone p ≡ fault
unfolding check_finish
check_finish_at_edge b stone p hit (inl top) none_yet = ground (
  arith,
  check_finish-FiveThrough b stone p hit,
  check_outside dduu b stone p (ground arith) (ground arith),
)
check_finish_at_edge b stone p hit (inr left) none_yet = ground (
  arith,
  check_finish-FiveThrough b stone p hit,
  check_outside rrll b stone p (ground arith) (ground arith),
)
