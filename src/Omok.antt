-- ===== src/Omok.antt =====
-- The 19 x 19 board of a server player and the test for five in a row: Project/DXServer/Player.cpp
-- (PutStone, ClearOmok, CheckFinish, CheckRULD, CheckRRLL, CheckRDLU, CheckDDUU).
-- The array is a function of row and column; every access goes through its bounds, and one outside
-- of them (undefined in C++) is the verdict `fault`, or `none` for a write.
pub mod Edge
pub mod Finish
pub mod Hits
pub mod Lines
pub mod Scan
mod Tests
use network_omok.Base.{
  ℕ, zero, suc, ◌+◌, Bool, ◌&&◌, ◌||◌, Option, none, some, ltb, leb, ◌==◌, if◌then◌else◌, add32,
  sub32,
}

-- `uInt32 m_omok[19][19]`: 0 is empty, 1 black, 2 white.
abbrev pub Board : Type 0
Board = ℕ → ℕ → ℕ

-- (row, column)
abbrev pub Pos : Type 0
Pos = ℕ × ℕ

abbrev pub in_board : Pos → Bool
in_board p = ltb p.0 19 && ltb p.1 19

-- m_omok[y][x] as a value.
abbrev pub read : Board → Pos → Option ℕ
read b p = if in_board p then some (b p.0 p.1) else none

-- m_omok[putY][putX] = (stoneType + 1)
unfoldable pub put_stone : Board → ℕ → Pos → Option Board
put_stone b stone_type p =
    if in_board p
    then some (λ y x. if y == p.0 && x == p.1 then add32 stone_type 1 else b y x)
    else none

unfoldable pub clear_omok : Board
clear_omok y x = 0

pub data Verdict : Type 0 where
  finished unfinished fault : Verdict

-- What the four loops differ in: where each direction stops, and where it goes next.
pub record Line : Type 0 where
  pub ahead_stop : Pos → Bool
  pub ahead : Pos → Pos
  pub behind_stop : Pos → Bool
  pub behind : Pos → Pos

-- `originY < 0` and `originX < 0` are tests of unsigned numbers, and written as they stand.
abbrev pub ruld : Line
ruld = record {
  ahead_stop = λ p. ltb p.0 0 || leb 19 p.1;
  ahead = λ p. (sub32 p.0 1, add32 p.1 1);
  behind_stop = λ p. leb 19 p.0 || ltb p.1 0;
  behind = λ p. (add32 p.0 1, sub32 p.1 1);
}

abbrev pub rrll : Line
rrll = record {
  ahead_stop = λ p. leb 19 p.1;
  ahead = λ p. (p.0, add32 p.1 1);
  behind_stop = λ p. ltb p.1 0;
  behind = λ p. (p.0, sub32 p.1 1);
}

abbrev pub rdlu : Line
rdlu = record {
  ahead_stop = λ p. leb 19 p.0 || leb 19 p.1;
  ahead = λ p. (add32 p.0 1, add32 p.1 1);
  behind_stop = λ p. ltb p.0 0 || ltb p.1 0;
  behind = λ p. (sub32 p.0 1, sub32 p.1 1);
}

abbrev pub dduu : Line
dduu = record {
  ahead_stop = λ p. leb 19 p.0;
  ahead = λ p. (add32 p.0 1, p.1);
  behind_stop = λ p. ltb p.0 0;
  behind = λ p. (sub32 p.0 1, p.1);
}

module _ (l : Line) (b : Board) (stone : ℕ) where
  -- The loop with `turn` set, by recursion on `countOmok`; `finish` is `finishCount`.
  unfoldable pub scan_behind : ℕ → Pos → ℕ → Verdict
  scan_behind zero p finish = unfinished
  scan_behind (suc count) p finish =
      let rest = scan_behind count (l.behind p) (finish + 1) in
      if l.behind_stop p then unfinished else elim (read b p) [
        | none ↦ fault
        | some c ↦ if c == stone then (if finish + 1 == 5 then finished else rest) else unfinished
      ]

  -- The loop before `turn` is set. The turn starts behind the stone `put`, and takes no count.
  unfoldable pub scan_ahead : Pos → ℕ → Pos → ℕ → Verdict
  scan_ahead put zero p finish = unfinished
  scan_ahead put (suc count) p finish =
      let rest = scan_ahead put count (l.ahead p) (finish + 1) in
      let turn = scan_behind (suc count) (l.behind put) finish in
      if l.ahead_stop p then turn else elim (read b p) [
        | none ↦ fault
        | some c ↦ if c == stone then (if finish + 1 == 5 then finished else rest) else turn
      ]

-- CheckRULD, CheckRRLL, CheckRDLU and CheckDDUU: the same loop over each line.
unfoldable pub check : Line → Board → ℕ → Pos → Verdict
check l b stone put = scan_ahead l b stone put 5 put 0

-- `if (Check…) return true;`, where a fault ends everything.
abbrev or_next : Verdict → Verdict → Verdict
or_next finished v = finished
or_next unfinished v = v
or_next fault v = fault

unfoldable pub check_finish : Board → ℕ → Pos → Verdict
check_finish b stone p =
    or_next (check ruld b stone p)
      (or_next (check rrll b stone p) (or_next (check rdlu b stone p) (check dduu b stone p)))
