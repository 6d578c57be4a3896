-- ===== src/Client/Play/Agreement.antt =====
-- The board that a client shows is the board that the server keeps: Project/DXServer/Player.cpp
-- (PutStone, ClearOmok) against Project/DXClient/GameScene.cpp and ClientServer.cpp (RecvPutStone).
use network_omok.Base.{
  ℕ, ◌+◌, ◌<◌, ◌≡◌, refl, Bool, true, not, Option, none, some, List, [], ◌∷◌, ◌++◌, map,
  append_assoc, append-nil, ◌==◌, if◌then◌else◌, arith, u32_mod, Option-cases, inl, inr, Bool-cases,
  sym, ◌∙◌, ◌&&◌, ap, add32, subst, add32,
}
use network_omok.Omok.{Board, Pos, put_stone, in_board}
use network_omok.Client.{GameScene, StoneType}
use network_omok.Client.Ground
use network_omok.Client.Play.{take_stone, colour}

-- A stone as the server sends it: its type and its cell.
abbrev pub Put : Type 0
Put = ℕ × Pos

-- A server board after some stones, and a client's scene after them.
unfoldable pub play : List Put → Board → Option Board
play [] b = some b
play ((t, p) ∷ puts) b = elim (put_stone b t p) [ none ↦ none | some c ↦ play puts c ]

unfoldable pub show : List Put → GameScene → Option GameScene
show [] g = some g
show ((t, p) ∷ puts) g = elim (take_stone t p g) [ none ↦ none | some h ↦ show puts h ]

-- A cell is taken on the client exactly if the server has a stone there.
abbrev pub Agrees : Board → GameScene → Type 0
Agrees b g = (y x : ℕ) → g.taken y x ≡ not (b y x == 0)

-- Stone types that do not become 0 when PutStone adds 1 to them.
abbrev pub AreStones : List Put → Type 0
AreStones [] = Unit {0}
AreStones ((t, p) ∷ puts) = (t + 1 < u32_mod) × AreStones puts

-- Who has the turn after some stones.
abbrev pub turn_after : List Put → Bool → Bool
turn_after [] turn = turn
turn_after (put ∷ puts) turn = turn_after puts (not turn)

abbrev coloured : Put → StoneType × Pos
coloured put = (colour put.0, put.1)

-- The cell that a stone takes, on both sides.
cell-Agrees :
    (b : Board) (g : GameScene) (t : ℕ) (p : Pos)
    → Agrees b g
    → t + 1 < u32_mod
    → (y x : ℕ)
    → (if y == p.0 && x == p.1 then true else g.taken y x)
      ≡ not ((if y == p.0 && x == p.1 then add32 t 1 else b y x) == 0)
cell-Agrees b g t p agree small y x = ground (arith, agree y x)

-- A server board with one stone more.
abbrev with_stone : Board → ℕ → Pos → Board
with_stone b t p y x = if y == p.0 && x == p.1 then add32 t 1 else b y x

put_stone-eq_some :
    (b c : Board) (t : ℕ) (p : Pos)
    → put_stone b t p ≡ some c
    → (in_board p ≡ true) × (with_stone b t p ≡ c)
unfolding put_stone
put_stone-eq_some b c t p e = elim (Bool-cases (in_board p)) [
  | inl inside ↦ (inside, ground (arith, inside))
  | inr outside ↦ absurd (ground arith)
]

take_stone-Agrees :
    (b c : Board) (g : GameScene) (t : ℕ) (p : Pos)
    → Agrees b g
    → t + 1 < u32_mod
    → put_stone b t p ≡ some c
    → (h : GameScene) × (take_stone t p g ≡ some h)
      × Agrees c h
      × (h.stones ≡ g.stones ++ (coloured (t, p) ∷ []))
      × (h.is_my_turn ≡ not g.is_my_turn)
unfolding put_stone take_stone Ground.put_stone
take_stone-Agrees b c g t p agree small e =
    let (inside, same) = put_stone-eq_some b c t p e in
    (
      record g {
        taken = λ y x. if y == p.0 && x == p.1 then true else g.taken y x;
        stones = g.stones ++ (coloured (t, p) ∷ []);
        is_my_turn = not g.is_my_turn;
      },
      ground (arith, inside),
      subst
          (λ d. (y x : ℕ) → (if y == p.0 && x == p.1 then true else g.taken y x) ≡ not (d y x == 0))
          same (cell-Agrees b g t p agree small),
      refl,
      refl,
    )

some_injective : (b c : Board) → some b ≡ some c → b ≡ c
some_injective b c e = cc

-- If the server's board takes some stones, then so does the scene of a client that agrees with it:
-- the two agree behind them, the scene shows exactly these stones in their order on top of those
-- that it had, and the turn has changed hands with each of them.
pub show-Agrees :
    (puts : List Put) (b c : Board) (g : GameScene)
    → Agrees b g
    → AreStones puts
    → play puts b ≡ some c
    → (h : GameScene) × (show puts g ≡ some h)
      × Agrees c h
      × (h.stones ≡ g.stones ++ map coloured puts)
      × (h.is_my_turn ≡ turn_after puts g.is_my_turn)
unfolding play show
show-Agrees [] b c g agree small e = (
  g,
  refl,
  subst (λ d. (y x : ℕ) → g.taken y x ≡ not (d y x == 0)) (some_injective b c e) agree,
  sym (append-nil g.stones),
  refl,
)
show-Agrees ((t, p) ∷ puts) b c g agree small e = elim (Option-cases (put_stone b t p)) [
  | inl refused ↦ absurd (ground arith)
  | inr (d, put) ↦
      let (g1, took, agree1, stones1, turn1) = take_stone-Agrees b d g t p agree small.0 put in
      let (h, showed, agree2, stones2, turn2) =
        show-Agrees puts d c g1 agree1 small.1 (ground (arith, put)) in
      (
        h,
        ground (arith, took, showed),
        agree2,
        stones2
            ∙ (ap (λ xs. xs ++ map coloured puts) stones1
                ∙ append_assoc g.stones (coloured (t, p) ∷ []) (map coloured puts)),
        turn2 ∙ ap (turn_after puts) turn1,
      )
]
