-- ===== src/Omok/Scan.antt =====
-- The two loops find exactly the runs that make up five.
use network_omok.Base.{ℕ, zero, suc, ◌+◌, ◌<◌, ◌≡◌, ◌⊎◌, inl, inr, true, false, arith, ◌≢◌}
use network_omok.Omok.{Board, Pos, Line, in_board, finished, fault, scan_behind, scan_ahead, check}
use network_omok.Omok.Hits.{Hit, AheadHits, BehindHits, BehindHits-mono}

-- The scan ahead may look at the position: it stops there, or the cell is on the board.
abbrev pub OpenAhead : Line → Pos → Type 0
OpenAhead l p = (l.ahead_stop p ≡ true) ⊎ (in_board p ≡ true)

abbrev OpenBehind : Line → Pos → Type 0
OpenBehind l p = (l.behind_stop p ≡ true) ⊎ (in_board p ≡ true)

-- The stops leave no cell of the board out.
pub record StopsOutside (l : Line) : Type 0 where
  pub ahead_out : (p : Pos) → l.ahead_stop p ≡ true → in_board p ≡ false
  pub behind_out : (p : Pos) → l.behind_stop p ≡ true → in_board p ≡ false

module _ (l : Line) (b : Board) (stone : ℕ) where
  scan_behind_sound :
      (n : ℕ) (p : Pos) (fin : ℕ)
      → fin + n ≡ 5
      → scan_behind l b stone n p fin ≡ finished
      → BehindHits l b stone n p
  unfolding scan_behind
  scan_behind_sound zero p fin e h = tt
  scan_behind_sound (suc n) p fin e h = ground (arith, scan_behind_sound n (l.behind p) (fin + 1))

  scan_behind_complete :
      (n : ℕ) (p : Pos) (fin : ℕ)
      → StopsOutside l
      → fin + suc n ≡ 5
      → BehindHits l b stone (suc n) p
      → scan_behind l b stone (suc n) p fin ≡ finished
  unfolding scan_behind
  scan_behind_complete zero p fin o e h = ground (arith, o.behind_out p)
  scan_behind_complete (suc n) p fin o e h =
      ground (arith, o.behind_out p, scan_behind_complete n (l.behind p) (fin + 1) o)

  -- A finished scan has turned at a cell that is no hit, or has met one and gone on.
  scan_ahead_step :
      (put : Pos) (n : ℕ) (p : Pos) (fin : ℕ)
      → StopsOutside l
      → scan_ahead l b stone put (suc n) p fin ≡ finished
      → (scan_behind l b stone (suc n) (l.behind put) fin ≡ finished) × ¬ Hit b stone p
        ⊎ Hit b stone p
          × ((fin + 1 ≡ 5) ⊎ (scan_ahead l b stone put n (l.ahead p) (fin + 1) ≡ finished))
  unfolding scan_ahead
  scan_ahead_step put n p fin o h = ground (arith, o.ahead_out p)

  -- What a finished scan has seen: `k` cells ahead and the others behind the stone that was put.
  abbrev pub Seen : Pos → ℕ → Pos → Type 0
  Seen put n p =
      (k : ℕ) × (m : ℕ) × (k + m ≡ n)
      × AheadHits l b stone k p
      × BehindHits l b stone m (l.behind put)
      × (Hit b stone p → 0 < k)

  scan_ahead_sound :
      (put : Pos) (n : ℕ) (p : Pos) (fin : ℕ)
      → StopsOutside l
      → fin + n ≡ 5
      → scan_ahead l b stone put n p fin ≡ finished
      → Seen put n p
  unfolding scan_ahead
  scan_ahead_sound put zero p fin o e h = absurd (ground arith)
  scan_ahead_sound put (suc n) p fin o e h = elim (scan_ahead_step put n p fin o h) [
    | inl (turned, miss) ↦ (
      0,
      suc n,
      omega arith,
      tt,
      scan_behind_sound (suc n) (l.behind put) fin e turned,
      λ hit. absurd (miss hit),
    )
    | inr (hit, inl last) ↦ (1, 0, omega arith, (hit, tt), tt, λ _. omega arith)
    | inr (hit, inr rest) ↦
        let (k, m, sum, ahead, behind, _) =
          scan_ahead_sound put n (l.ahead p) (fin + 1) o (omega arith) rest in
        (suc k, m, omega arith, (hit, ahead), behind, λ _. omega arith)
  ]

  scan_ahead_complete :
      (put : Pos) (n : ℕ) (p : Pos) (fin k m : ℕ)
      → StopsOutside l
      → ((q : Pos) → Hit b stone q → OpenAhead l (l.ahead q))
      → OpenAhead l p
      → fin + suc n ≡ 5
      → k + m ≡ suc n
      → AheadHits l b stone k p
      → BehindHits l b stone m (l.behind put)
      → scan_ahead l b stone put (suc n) p fin ≡ finished
  unfolding scan_ahead
  scan_ahead_complete put zero p fin zero m o go at e le ha hb = ground (
    arith,
    o.ahead_out p,
    scan_behind_complete zero (l.behind put) fin o,
    BehindHits-mono l b stone 1 m (l.behind put),
  )
  scan_ahead_complete put (suc n) p fin zero m o go at e le ha hb =
      let enough = BehindHits-mono l b stone (suc (suc n)) m (l.behind put) (omega arith) hb in
      let fewer = BehindHits-mono l b stone (suc n) m (l.behind put) (omega arith) hb in
      ground (
        arith,
        o.ahead_out p,
        go p,
        scan_behind_complete (suc n) (l.behind put) fin o e enough,
        scan_ahead_complete put n (l.ahead p) (fin + 1) zero (suc n) o go,
      )
  scan_ahead_complete put zero p fin (suc k) m o go at e le ha hb = ground (arith, o.ahead_out p)
  scan_ahead_complete put (suc n) p fin (suc k) m o go at e le ha hb = ground (
    arith,
    o.ahead_out p,
    scan_ahead_complete put n (l.ahead p) (fin + 1) k m o go (go p ha.0) (omega arith) (omega arith)
        ha.1 hb,
  )

  -- Where each hit leads to a cell that may be looked at, no scan leaves the array.
  scan_behind_in_array :
      (n : ℕ) (p : Pos) (fin : ℕ)
      → ((q : Pos) → Hit b stone q → OpenBehind l (l.behind q))
      → OpenBehind l p
      → scan_behind l b stone n p fin ≢ fault
  unfolding scan_behind
  scan_behind_in_array zero p fin go at h = cc
  scan_behind_in_array (suc n) p fin go at h =
      ground (arith, go p, scan_behind_in_array n (l.behind p) (fin + 1) go)

  scan_ahead_in_array :
      (put : Pos) (n : ℕ) (p : Pos) (fin : ℕ)
      → ((q : Pos) → Hit b stone q → OpenAhead l (l.ahead q))
      → ((q : Pos) → Hit b stone q → OpenBehind l (l.behind q))
      → OpenAhead l p
      → Hit b stone put
      → scan_ahead l b stone put n p fin ≢ fault
  unfolding scan_ahead
  scan_ahead_in_array put zero p fin go back at hit h = cc
  scan_ahead_in_array put (suc n) p fin go back at hit h = ground (
    arith,
    go p,
    scan_behind_in_array (suc n) (l.behind put) fin back (back put hit),
    scan_ahead_in_array put n (l.ahead p) (fin + 1) go back,
  )

  pub check-Seen : (put : Pos) → StopsOutside l → check l b stone put ≡ finished → Seen put 5 put
  unfolding check
  check-Seen put o h = scan_ahead_sound put 5 put 0 o (omega arith) h

  pub check_finishes :
      (put : Pos)
      → StopsOutside l
      → ((q : Pos) → Hit b stone q → OpenAhead l (l.ahead q))
      → Hit b stone put
      → Seen put 5 put
      → check l b stone put ≡ finished
  unfolding check
  check_finishes put o go hit (k, m, sum, ahead, behind, _) =
      scan_ahead_complete put 4 put 0 k m o go (ground arith) (omega arith) sum ahead behind

  pub check_in_array :
      (put : Pos)
      → ((q : Pos) → Hit b stone q → OpenAhead l (l.ahead q))
      → ((q : Pos) → Hit b stone q → OpenBehind l (l.behind q))
      → Hit b stone put
      → check l b stone put ≢ fault
  unfolding check
  check_in_array put go back hit h = scan_ahead_in_array put 5 put 0 go back (ground arith) hit h
