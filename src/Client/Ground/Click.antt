-- ===== src/Client/Ground/Click.antt =====
-- Which cell a click selects: OmokGround::PutStone of Project/DXClient/OmokGround.cpp.
use network_omok.Base.{
  ℕ, zero, suc, ◌+◌, ◌-◌, ◌≤◌, ◌<◌, ◌≡◌, Bool, true, false, ◌&&◌, not, Option, none, some, inl, inr,
  ◌⊎◌, arith, refl, ◌∙◌, ap, sym, if◌then◌else◌,
}
use network_omok.Omok.{Pos}
use network_omok.Client.Ground.{Floats, F, near, find_in_row, find_in_rows, find_cell}

module _ (fl : Floats) (taken : ℕ → ℕ → Bool) (click : F fl × F fl) where
  -- A cell that the click is near to and that is not taken.
  abbrev is_hit : Pos → Bool
  is_hit p = near fl click p && not (taken p.0 p.1)

  -- The order of the two loops.
  abbrev Before : Pos → Pos → Type 0
  Before q p = (q.0 < p.0) ⊎ ((q.0 ≡ p.0) × (q.1 < p.1))

  -- Where there is no cell, no cell of the board is hit; a cell that is found lies on the board, is
  -- hit, and no cell before it is.
  abbrev pub IsFirstHit : Option Pos → Type 0
  IsFirstHit none = (q : Pos) → q.0 < 19 → q.1 < 19 → is_hit q ≡ false
  IsFirstHit (some p) =
      (p.0 < 19)
      × (p.1 < 19)
      × (is_hit p ≡ true)
      × ((q : Pos) → q.0 < 19 → q.1 < 19 → Before q p → is_hit q ≡ false)

  -- The same for the last `n` columns of a row.
  abbrev FirstInRow : ℕ → ℕ → Option Pos → Type 0
  FirstInRow y n none = (x : ℕ) → x < 19 → 19 ≤ x + n → is_hit (y, x) ≡ false
  FirstInRow y n (some p) =
      (p.0 ≡ y)
      × (p.1 < 19)
      × (is_hit p ≡ true)
      × ((x : ℕ) → x < p.1 → 19 ≤ x + n → is_hit (y, x) ≡ false)

  at_or_after : (n x : ℕ) → suc n ≤ 19 → 19 ≤ x + suc n → (19 - suc n ≡ x) ⊎ (19 ≤ x + n)
  at_or_after n x le from = ground arith

  -- A column that is not hit, and the columns behind it.
  skip_column :
      (y n x : ℕ)
      → is_hit (y, 19 - suc n) ≡ false
      → suc n ≤ 19
      → 19 ≤ x + suc n
      → (19 ≤ x + n → is_hit (y, x) ≡ false)
      → is_hit (y, x) ≡ false
  skip_column y n x miss le from rest = elim (at_or_after n x le from) [
    | inl here ↦ ap (λ z. is_hit (y, z)) (sym here) ∙ miss
    | inr after ↦ rest after
  ]

  step-FirstInRow :
      (y n : ℕ) (b : Bool) (rest : Option Pos)
      → is_hit (y, 19 - suc n) ≡ b
      → suc n ≤ 19
      → FirstInRow y n rest
      → FirstInRow y (suc n) (if b then some (y, 19 - suc n) else rest)
  step-FirstInRow y n true rest hit le first =
      (refl, omega arith, hit, λ x lt from. absurd (omega arith))
  step-FirstInRow y n false none miss le first =
      λ x lt from. skip_column y n x miss le from (first x lt)
  step-FirstInRow y n false (some p) miss le (row, inside, hit, first) =
      (row, inside, hit, λ x lt from. skip_column y n x miss le from (first x lt))

  find_in_row-FirstInRow : (y n : ℕ) → n ≤ 19 → FirstInRow y n (find_in_row fl taken click y n)
  unfolding find_in_row
  find_in_row-FirstInRow y zero le = λ x lt from. absurd (omega arith)
  find_in_row-FirstInRow y (suc n) le =
      step-FirstInRow y n _ _ refl le (find_in_row-FirstInRow y n (omega arith))

  -- The same for the last `n` rows.
  abbrev FirstInRows : ℕ → Option Pos → Type 0
  FirstInRows n none = (q : Pos) → q.0 < 19 → q.1 < 19 → 19 ≤ q.0 + n → is_hit q ≡ false
  FirstInRows n (some p) =
      (p.0 < 19)
      × (p.1 < 19)
      × (is_hit p ≡ true)
      × ((q : Pos) → q.0 < 19 → q.1 < 19 → Before q p → 19 ≤ q.0 + n → is_hit q ≡ false)

  -- A row without a hit, and the rows behind it.
  skip_row :
      (n : ℕ) (q : Pos)
      → FirstInRow (19 - suc n) 19 none
      → suc n ≤ 19
      → q.1 < 19
      → 19 ≤ q.0 + suc n
      → (19 ≤ q.0 + n → is_hit q ≡ false)
      → is_hit q ≡ false
  skip_row n q miss le lt from rest = elim (at_or_after n q.0 le from) [
    | inl here ↦ ap (λ z. is_hit (z, q.1)) (sym here) ∙ miss q.1 lt (omega arith)
    | inr after ↦ rest after
  ]

  step-FirstInRows :
      (n : ℕ) (row rest : Option Pos)
      → FirstInRow (19 - suc n) 19 row
      → suc n ≤ 19
      → FirstInRows n rest
      → FirstInRows (suc n) (elim row [ none ↦ rest | some p ↦ some p ])
  step-FirstInRows n none none miss le first =
      λ q inside lt from. skip_row n q miss le lt from (first q inside lt)
  step-FirstInRows n none (some p) miss le (inside, inside', hit, first) = (
    inside,
    inside',
    hit,
    λ q in' lt before from. skip_row n q miss le lt from (first q in' lt before),
  )
  step-FirstInRows n (some p) rest (row, inside, hit, first) le others = (
    omega arith,
    inside,
    hit,
    λ q in' lt before from. elim before [
      | inl above ↦ absurd (omega arith)
      | inr (same, left) ↦ ap (λ z. is_hit (z, q.1)) (same ∙ row) ∙ first q.1 left (omega arith)
    ],
  )

  find_in_rows-FirstInRows : (n : ℕ) → n ≤ 19 → FirstInRows n (find_in_rows fl taken click n)
  unfolding find_in_rows
  find_in_rows-FirstInRows zero le = λ q inside lt from. absurd (omega arith)
  find_in_rows-FirstInRows (suc n) le =
      step-FirstInRows n _ _ (find_in_row-FirstInRow (19 - suc n) 19 (omega arith)) le
        (find_in_rows-FirstInRows n (omega arith))

  FirstInRows-IsFirstHit : (o : Option Pos) → FirstInRows 19 o → IsFirstHit o
  FirstInRows-IsFirstHit none first = λ q inside lt. first q inside lt (omega arith)
  FirstInRows-IsFirstHit (some p) (inside, inside', hit, first) =
      (inside, inside', hit, λ q in' lt before. first q in' lt before (omega arith))

  -- OmokGround::PutStone finds the first cell, row by row, that the click is near to and that is not
  -- taken, and returns false only if there is none on the board.
  pub find_cell-IsFirstHit : IsFirstHit (find_cell fl taken click)
  unfolding find_cell
  find_cell-IsFirstHit = FirstInRows-IsFirstHit _ (find_in_rows-FirstInRows 19 (omega arith))
