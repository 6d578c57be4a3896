-- ===== src/Omok/Lines.antt =====
-- Five in a row said without the loops: five consecutive cells of a row, a column or a diagonal.
use network_omok.Base.{
  ℕ, zero, suc, ◌+◌, ◌-◌, ◌≤◌, ◌<◌, ◌≡◌, sym, subst, ◌⊎◌, inl, inr, arith, leb, if◌then◌else◌,
}
use native.Mathlib.Decide.{dec_lt}
use network_omok.Omok.{Board, Pos, Line, ruld, rrll, rdlu, dduu}
use network_omok.Omok.Hits.{Hit, AheadHits, BehindHits}
use network_omok.Omok.Scan.{Seen}

-- The cells of the four lines through `p` by an index that grows in the direction `ahead`; the
-- index of `p` itself is its column, or for `column` its row. Off the board, `rising` is (19, 19).
abbrev pub row : Pos → ℕ → Pos
row p t = (p.0, t)

abbrev pub column : Pos → ℕ → Pos
column p t = (t, p.1)

-- The index counts from the edge of the board, so `p` has the smaller of its coordinates.
abbrev pub falling : Pos → ℕ → Pos
falling p t = (p.0 - p.1 + t, p.1 - p.0 + t)

abbrev pub rising : Pos → ℕ → Pos
rising p t = if leb t (p.0 + p.1) then (p.0 + p.1 - t, t) else (19, 19)

-- Five consecutive cells of the line, the one with index `t` among them, hold the stone.
abbrev pub FiveAt : Board → ℕ → (ℕ → Pos) → ℕ → Type 0
FiveAt b stone pt t = (u : ℕ) × (u ≤ t) × (t < u + 5) × ((j : ℕ) → j < 5 → Hit b stone (pt (u + j)))

-- The moves of the code follow the index as long as they meet stones.
pub record Follows (l : Line) (b : Board) (stone : ℕ) (pt : ℕ → Pos) : Type 0 where
  forth :
      (t : ℕ)
      → Hit b stone (pt t)
      → Hit b stone (l.ahead (pt t)) ⊎ Hit b stone (pt (suc t))
      → l.ahead (pt t) ≡ pt (suc t)
  pub back : (t : ℕ) → Hit b stone (pt (suc t)) → l.behind (pt (suc t)) ≡ pt t
  edge : Hit b stone (pt 0) → ¬ Hit b stone (l.behind (pt 0))

module _ {l : Line} {b : Board} {stone : ℕ} (pt : ℕ → Pos) (f : Follows l b stone pt) where
  at_index : {i j : ℕ} → i ≡ j → Hit b stone (pt i) → Hit b stone (pt j)
  at_index e h = subst (λ k. Hit b stone (pt k)) e h

  AheadHits-index :
      (k t : ℕ) → AheadHits l b stone k (pt t) → (j : ℕ) → j < k → Hit b stone (pt (t + j))
  AheadHits-index zero t h j lt = absurd (omega arith)
  AheadHits-index (suc k) t h zero lt = at_index (omega arith) h.0
  AheadHits-index (suc zero) t h (suc j) lt = absurd (omega arith)
  AheadHits-index (suc (suc k)) t h (suc j) lt = at_index (omega arith) (
      AheadHits-index (suc k) (suc t)
        (subst (AheadHits l b stone (suc k)) (f.forth t h.0 (inl h.1.0)) h.1) j (omega arith))

  index-AheadHits :
      (k t : ℕ) → ((j : ℕ) → j < k → Hit b stone (pt (t + j))) → AheadHits l b stone k (pt t)
  index-AheadHits zero t h = tt
  index-AheadHits (suc zero) t h = (at_index (omega arith) (h 0 (omega arith)), tt)
  index-AheadHits (suc (suc k)) t h =
      let first : Hit b stone (pt t) = at_index (omega arith) (h 0 (omega arith)) in
      let second : Hit b stone (pt (suc t)) = at_index (omega arith) (h 1 (omega arith)) in
      (
        first,
        subst (AheadHits l b stone (suc k)) (sym (f.forth t first (inr second))) (
            index-AheadHits (suc k) (suc t)
              (λ j lt. at_index (omega arith) (h (suc j) (omega arith)))),
      )

  -- A run behind the cell `t` reaches back to some index `u` of the line.
  BehindHits-index :
      (m t : ℕ)
      → Hit b stone (pt t)
      → BehindHits l b stone m (l.behind (pt t))
      → (u : ℕ) × (u + m ≡ t) × ((j : ℕ) → j < m → Hit b stone (pt (u + j)))
  BehindHits-index zero t at h = (t, omega arith, λ j lt. absurd (omega arith))
  BehindHits-index (suc m) zero at h = absurd (f.edge at h.0)
  BehindHits-index (suc m) (suc t) at h =
      let back : Hit b stone (pt t) × BehindHits l b stone m (l.behind (pt t)) =
        subst (λ p. Hit b stone p × BehindHits l b stone m (l.behind p)) (f.back t at) h in
      let (u, sum, run) = BehindHits-index m t back.0 back.1 in
      (
        u,
        omega arith,
        λ j lt. elim (dec_lt j m) [
          | yes below ↦ run j below
          | no last ↦ at_index (omega arith) back.0
        ],
      )

  index-BehindHits :
      (m u : ℕ)
      → Hit b stone (pt (u + m))
      → ((j : ℕ) → j < m → Hit b stone (pt (u + j)))
      → BehindHits l b stone m (l.behind (pt (u + m)))
  index-BehindHits zero u at h = tt
  index-BehindHits (suc m) u at h =
      let e : u + suc m ≡ suc (u + m) = omega arith in
      let here : Hit b stone (pt (suc (u + m))) = at_index e at in
      let run : BehindHits l b stone m (l.behind (pt (u + m))) =
        index-BehindHits m u (h m (omega arith)) (λ j lt. h j (omega arith)) in
      subst (λ k. BehindHits l b stone (suc m) (l.behind (pt k))) (sym e)
        (subst (λ p. Hit b stone p × BehindHits l b stone m (l.behind p))
          (sym (f.back (u + m) here)) (h m (omega arith), run))

  pub Seen→FiveAt :
      (t : ℕ) → Hit b stone (pt t) → Seen l b stone (pt t) 5 (pt t) → FiveAt b stone pt t
  Seen→FiveAt t at (k, m, sum, ahead, behind, some_ahead) =
      let (u, back, run) = BehindHits-index m t at behind in
      let pos : 0 < k = some_ahead at in
      (
        u,
        omega arith,
        omega arith,
        λ j lt. elim (dec_lt j m) [
          | yes below ↦ run j below
          | no above ↦
              at_index {i = t + (j - m)} (omega arith)
                (AheadHits-index k t ahead (j - m) (omega arith))
        ],
      )

  pub FiveAt→Seen : (t : ℕ) → FiveAt b stone pt t → Seen l b stone (pt t) 5 (pt t)
  FiveAt→Seen t (u, le, lt, five) =
      let e : u + (t - u) ≡ t = omega arith in
      (
        u + 5 - t,
        t - u,
        omega arith,
        index-AheadHits (u + 5 - t) t
            (λ j h. at_index {i = u + (t - u + j)} (omega arith) (five (t - u + j) (omega arith))),
        subst (λ k. BehindHits l b stone (t - u) (l.behind (pt k))) e
            (index-BehindHits (t - u) u (five (t - u) (omega arith)) (λ j h. five j (omega arith))),
        λ _. omega arith,
      )

module _ (b : Board) (stone : ℕ) (p : Pos) where
  pub row-Follows : Follows rrll b stone (row p)
  row-Follows = record {
    forth = λ t h n. ground arith;
    back = λ t h. ground arith;
    edge = λ h n. ground arith;
  }

  pub column-Follows : Follows dduu b stone (column p)
  column-Follows = record {
    forth = λ t h n. ground arith;
    back = λ t h. ground arith;
    edge = λ h n. ground arith;
  }

  pub falling-Follows : Follows rdlu b stone (falling p)
  falling-Follows = record {
    forth = λ t h n. ground arith;
    back = λ t h. ground arith;
    edge = λ h n. ground arith;
  }

  pub rising-Follows : Follows ruld b stone (rising p)
  rising-Follows = record {
    forth = λ t h n. ground arith;
    back = λ t h. ground arith;
    edge = λ h n. ground arith;
  }
