-- ===== src/Client/Ground.antt =====
-- Project/DXClient/GameScene.cpp (PutStone, ClearOmok) and OmokGround.cpp (HitSelect, PutStone,
-- CheckOmokGround, ReleaseStones): the board that a client shows, and its answer to a click.
pub mod Click
use network_omok.Base.{
  ℕ, zero, suc, ◌+◌, ◌-◌, Bool, true, false, ◌&&◌, not, Option, none, some, List, [], ◌∷◌, ◌++◌,
  if◌then◌else◌, ◌==◌,
}
use network_omok.Omok.{Pos, in_board}
use network_omok.Client.{StoneType, GameScene}

-- GameScene::PutStone; a cell outside of m_omokPair is undefined.
unfoldable pub put_stone : StoneType → Pos → GameScene → Option GameScene
put_stone type p g =
    if in_board p
    then some (record g {
      taken = λ y x. if y == p.0 && x == p.1 then true else g.taken y x;
      stones = g.stones ++ ((type, p) ∷ []);
    })
    else none

-- GameScene::ClearOmok
unfoldable pub clear_omok : GameScene → GameScene
clear_omok g = record g { taken = λ y x. false }

-- OmokGround::ReleaseStones, which leaves m_omokPair as it is.
unfoldable pub release_stones : GameScene → GameScene
release_stones g = record g { stones = [] }

-- Arithmetic of `float` as the machine does it.
pub record Floats : Type 1 where
  pub F : Type 0
  pub of_int : ℕ → F
  -- The literal 40.4f.
  pub row_step : F
  pub add : F → F → F
  pub sub : F → F → F
  pub mul : F → F → F
  pub leb : F → F → Bool

module _ (fl : Floats) where
  abbrev pub F : Type 0
  F = fl.F

  -- GameScene::CreateOmokDistance: a column is reached by adding 54.0f again and again.
  column_at : ℕ → F
  column_at zero = fl.of_int 63
  column_at (suc x) = fl.add (column_at x) (fl.of_int 54)

  row_at : ℕ → F
  row_at y = fl.add (fl.of_int 49) (fl.mul fl.row_step (fl.of_int y))

  -- MAX_LIMIT on both sides.
  abbrev within : F → F → Bool
  within click at =
      fl.leb (fl.sub at (fl.of_int 23)) click && fl.leb click (fl.add at (fl.of_int 23))

  -- Whether a click is near to a cell.
  pub near : F × F → Pos → Bool
  unfolding column_at row_at
  near click p = within click.0 (column_at p.1) && within click.1 (row_at p.0)

  -- OmokGround::CheckOmokGround
  unfoldable pub check_omok_ground : F × F → Bool
  unfolding column_at row_at
  check_omok_ground click =
      (fl.leb (column_at 0) click.0 && fl.leb (row_at 0) click.1)
      && (fl.leb click.0 (column_at 18) && fl.leb click.1 (row_at 18))

  module _ (taken : ℕ → ℕ → Bool) (click : F × F) where
    -- The inner loop of OmokGround::PutStone, for the last `n` columns of a row.
    pub find_in_row : ℕ → ℕ → Option Pos
    unfolding near
    find_in_row y zero = none
    find_in_row y (suc n) =
        let x = 19 - suc n in
        let rest = find_in_row y n in
        if near click (y, x) && not (taken y x) then some (y, x) else rest

    -- The outer loop, for the last `n` rows.
    pub find_in_rows : ℕ → Option Pos
    unfolding find_in_row
    find_in_rows zero = none
    find_in_rows (suc n) =
        let rest = find_in_rows n in
        elim (find_in_row (19 - suc n) 19) [ none ↦ rest | some p ↦ some p ]

  -- OmokGround::PutStone: m_putY and m_putX, if it returns true.
  unfoldable pub find_cell : (ℕ → ℕ → Bool) → F × F → Option Pos
  unfolding find_in_rows
  find_cell taken click = find_in_rows taken click 19
