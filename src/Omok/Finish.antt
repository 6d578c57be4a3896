-- ===== src/Omok/Finish.antt =====
-- What CheckFinish decides: five in a row through the stone just put, and when it leaves the array.
use Prim.Native.Nat.{min}
use network_omok.Base.{ℕ, ◌≡◌, refl, sym, subst, ◌⊎◌, ◌↔◌, ◌≢◌, arith}
use network_omok.Omok.{
  Board, Pos, Line, ruld, rrll, rdlu, dduu, finished, fault, check, check_finish,
}
use network_omok.Omok.Hits.{Hit}
use network_omok.Omok.Scan.{
  StopsOutside, OpenAhead, Seen, check-Seen, check_finishes, check_in_array,
}
use network_omok.Omok.Lines.{
  row, column, falling, rising, FiveAt, Follows, Seen→FiveAt, FiveAt→Seen, row-Follows,
  column-Follows, falling-Follows, rising-Follows,
}

ruld-StopsOutside : StopsOutside ruld
ruld-StopsOutside = record { ahead_out = λ p h. ground arith; behind_out = λ p h. ground arith }

rrll-StopsOutside : StopsOutside rrll
rrll-StopsOutside = record { ahead_out = λ p h. ground arith; behind_out = λ p h. ground arith }

rdlu-StopsOutside : StopsOutside rdlu
rdlu-StopsOutside = record { ahead_out = λ p h. ground arith; behind_out = λ p h. ground arith }

dduu-StopsOutside : StopsOutside dduu
dduu-StopsOutside = record { ahead_out = λ p h. ground arith; behind_out = λ p h. ground arith }

-- The index of a position on its diagonals.
abbrev corner : Pos → ℕ
corner p = min p.0 p.1

module _ (b : Board) (stone : ℕ) (p : Pos) (hit : Hit b stone p) where
  -- One line: the loop finishes only at five in a row.
  check-FiveAt :
      (l : Line) (pt : ℕ → Pos) (t : ℕ)
      → StopsOutside l
      → Follows l b stone pt
      → pt t ≡ p
      → check l b stone p ≡ finished
      → FiveAt b stone pt t
  check-FiveAt l pt t o f e h =
      Seen→FiveAt pt f t (subst (Hit b stone) (sym e) hit)
        (subst (λ q. Seen l b stone q 5 q) (sym e) (check-Seen l b stone p o h))

  FiveAt-check :
      (l : Line) (pt : ℕ → Pos) (t : ℕ)
      → StopsOutside l
      → Follows l b stone pt
      → ((q : Pos) → Hit b stone q → OpenAhead l (l.ahead q))
      → pt t ≡ p
      → FiveAt b stone pt t
      → check l b stone p ≡ finished
  FiveAt-check l pt t o f go e h =
      check_finishes l b stone p o go hit
        (subst (λ q. Seen l b stone q 5 q) e (FiveAt→Seen pt f t h))

  falling-corner : falling p (corner p) ≡ p
  falling-corner = ground arith

  rising-column : rising p p.1 ≡ p
  rising-column = ground arith

  -- Five in a row through the cell, on one of the four lines.
  abbrev pub FiveThrough : Type 0
  FiveThrough =
      FiveAt b stone (rising p) p.1
      ⊎ FiveAt b stone (row p) p.1
      ⊎ FiveAt b stone (falling p) (corner p)
      ⊎ FiveAt b stone (column p) p.0

  -- Along its row, its column and its falling diagonal the loop finishes exactly at five in a row,
  -- wherever the stone lies on the board.
  check_exact :
      ((check rrll b stone p ≡ finished) ↔ FiveAt b stone (row p) p.1)
      × ((check dduu b stone p ≡ finished) ↔ FiveAt b stone (column p) p.0)
      × ((check rdlu b stone p ≡ finished) ↔ FiveAt b stone (falling p) (corner p))
  check_exact = (
    (
      check-FiveAt rrll (row p) p.1 rrll-StopsOutside (row-Follows b stone p) refl,
      FiveAt-check rrll (row p) p.1 rrll-StopsOutside (row-Follows b stone p) (λ q h. ground arith)
          refl,
    ),
    (
      check-FiveAt dduu (column p) p.0 dduu-StopsOutside (column-Follows b stone p) refl,
      FiveAt-check dduu (column p) p.0 dduu-StopsOutside (column-Follows b stone p)
          (λ q h. ground arith) refl,
    ),
    (
      check-FiveAt rdlu (falling p) (corner p) rdlu-StopsOutside (falling-Follows b stone p)
          falling-corner,
      FiveAt-check rdlu (falling p) (corner p) rdlu-StopsOutside (falling-Follows b stone p)
          (λ q h. ground arith) falling-corner,
    ),
  )

  ruld-FiveAt : check ruld b stone p ≡ finished → FiveAt b stone (rising p) p.1
  ruld-FiveAt =
      check-FiveAt ruld (rising p) p.1 ruld-StopsOutside (rising-Follows b stone p) rising-column

  -- CheckFinish announces a win only where five stones of the colour lie in a row through the
  -- stone that was just put.
  pub check_finish-FiveThrough : check_finish b stone p ≡ finished → FiveThrough
  unfolding check_finish
  check_finish-FiveThrough h =
      let (rows, columns, diagonals) = check_exact in
      ground (arith, ruld-FiveAt, rows.0, columns.0, diagonals.0)

  -- No stone of the colour lies on the first row or the first column.
  abbrev pub EdgeFree : Type 0
  EdgeFree = (t : ℕ) → (b 0 t ≢ stone) × (b t 0 ≢ stone)

  rising_complete :
      ((t : ℕ) → b 0 t ≢ stone) → FiveAt b stone (rising p) p.1 → check ruld b stone p ≡ finished
  rising_complete free =
      FiveAt-check ruld (rising p) p.1 ruld-StopsOutside (rising-Follows b stone p)
        (λ q h. ground (arith, free q.1)) rising-column

  lines_in_array :
      EdgeFree
      → (check ruld b stone p ≢ fault)
        × (check rrll b stone p ≢ fault)
        × (check rdlu b stone p ≢ fault)
        × (check dduu b stone p ≢ fault)
  lines_in_array free = (
    check_in_array ruld b stone p (λ q h. ground (arith, free q.1))
        (λ q h. ground (arith, free q.0)) hit,
    check_in_array rrll b stone p (λ q h. ground arith) (λ q h. ground (arith, free q.0)) hit,
    check_in_array rdlu b stone p (λ q h. ground arith) (λ q h. ground (arith, free q.0, free q.1))
        hit,
    check_in_array dduu b stone p (λ q h. ground arith) (λ q h. ground (arith, free q.1)) hit,
  )

  -- While the colour has no stone on the first row or column, CheckFinish stays inside the array
  -- and finds a win exactly where five stones lie in a row through the stone just put.
  pub check_finish_exact :
      EdgeFree
      → ((check_finish b stone p ≡ finished) ↔ FiveThrough) × (check_finish b stone p ≢ fault)
  unfolding check_finish
  check_finish_exact free =
      let (rows, columns, diagonals) = check_exact in
      let (in_ruld, in_rrll, in_rdlu, in_dduu) = lines_in_array free in
      (
        (
          check_finish-FiveThrough,
          λ five. ground (arith, rising_complete (λ t. (free t).0), rows.1, columns.1, diagonals.1),
        ),
        ground arith,
      )
