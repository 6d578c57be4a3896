-- ===== src/Omok/Hits.antt =====
-- Runs of equal stones along a line, step by step, and the same runs by their index on the line.
use network_omok.Base.{ℕ, zero, suc, ◌≤◌, ◌≡◌, some, arith}
use network_omok.Omok.{Board, Pos, Line, read}

-- The cell lies on the board and holds the stone.
abbrev pub Hit : Board → ℕ → Pos → Type 0
Hit b stone p = read b p ≡ some stone

module _ (l : Line) (b : Board) (stone : ℕ) where
  abbrev pub AheadHits : ℕ → Pos → Type 0
  AheadHits zero p = Unit {0}
  AheadHits (suc n) p = Hit b stone p × AheadHits n (l.ahead p)

  abbrev pub BehindHits : ℕ → Pos → Type 0
  BehindHits zero p = Unit {0}
  BehindHits (suc n) p = Hit b stone p × BehindHits n (l.behind p)

  pub BehindHits-mono : (m n : ℕ) (p : Pos) → m ≤ n → BehindHits n p → BehindHits m p
  BehindHits-mono zero n p h r = tt
  BehindHits-mono (suc m) zero p h r = absurd (omega arith)
  BehindHits-mono (suc m) (suc n) p h r = (r.0, BehindHits-mono m n (l.behind p) (omega arith) r.1)
