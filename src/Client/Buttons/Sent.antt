-- ===== src/Client/Buttons/Sent.antt =====
-- What the clicks of Project/DXClient send: OmokGround.cpp (HitSelect), the three buttons, RoomUI.cpp.
use network_omok.Base.{
  ℕ, ◌<◌, ◌≡◌, ◌⊎◌, refl, Bool, true, false, Option, some, [], ◌∷◌, ◌++◌, WString, ◌==◌, ◌&&◌, not,
  if◌then◌else◌, text_eq, arith, Option-cases, Bool-cases, inl, inr, sym, subst, bind-eq-some,
  ◌>>=◌, deref, pure,
}
use network_omok.Omok.{Board, Pos}
use network_omok.Server.{Address, text}
use network_omok.Client.{Action, GameScene, Client, channel_scene, my_name, load_player}
use network_omok.Client.Play.Agreement.{Agrees}
use network_omok.Client.Dispatch.Turns.{IsAt}
use network_omok.Client.Ground.{Floats, F, check_omok_ground, find_cell}
use network_omok.Client.Ground.Click.{IsFirstHit, find_cell-IsFirstHit}
use network_omok.Protocol.{cs_requ_room_entry}
use network_omok.Client.Buttons.{
  name_in_prev, put_request, request_stone, hit_select, enter_player_check, hit_ready, hit_exit,
  request_room_entry,
}

-- The client with one packet more.
abbrev pub sending_put : Client → WString → WString → WString → Pos → ℕ → Client
sending_put c me another title p k = record c {
  sent = c.sent ++ (put_request me another title p k ∷ []);
}

-- An action that leaves the client as it is.
abbrev Reads : {A : Type 0} → Action A → Type 0
Reads {A} m = (c d : Client) (x : A) → m c ≡ some (x, d) → d ≡ c

deref-Reads : (o : Option Address) → Reads (deref o)
deref-Reads o c d a e = ground arith

load_player-Reads : (a : Address) → Reads (load_player a)
load_player-Reads a c d p e = ground arith

another-Reads :
    (b : Bool) (o : Option Address) (host : Address) → Reads (if b then deref o else pure host)
another-Reads b o host c d a e = ground arith

name_in_prev-Reads : Reads name_in_prev
name_in_prev-Reads c d me e = ground arith

my_name-name_in_prev :
    (c : Client) (me : WString) → name_in_prev c ≡ some (me, c) → my_name c ≡ some (me, c)
my_name-name_in_prev c me e = ground arith

-- What holds behind an action that reads.
after_read :
    {A B : Type 0} (m : Action A) (f : A → Action B) (c t : Client) (b : B) {Q : Type 0}
    → Reads m
    → ((x : A) → m c ≡ some (x, c) → f x c ≡ some (b, t) → Q)
    → (m >>= f) c ≡ some (b, t)
    → Q
after_read m f c t b reads rest e =
    let (x, d, went, e1) = bind-eq-some m f c t b e in
    let same = reads c d x went in
    rest x (subst (λ z. m c ≡ some (x, z)) same went) (subst (λ z. f x z ≡ some (b, t)) same e1)

colour-bound : (b : Bool) → (if b then 0 else 1) < 2
colour-bound true = omega arith
colour-bound false = omega arith

some_tt_injective : (c d : Client) → pure (tt {0}) c ≡ some (tt, d) → c ≡ d
some_tt_injective c d e = cc

request_stone-Sent :
    (g : GameScene) (p : Pos) (c t : Client)
    → request_stone g p c ≡ some (tt, t)
    → (me another : WString) × (k : ℕ) × (k < 2)
      × (my_name c ≡ some (me, c))
      × (t ≡ sending_put c me another g.title_name p k)
unfolding request_stone
request_stone-Sent g p c t e =
    after_read name_in_prev _ c t tt name_in_prev-Reads
      (λ me named. after_read (deref g.host_player) _ c t tt (deref-Reads g.host_player) (λ host _.
        after_read (load_player host) _ c t tt (load_player-Reads host) (λ host_player _.
          after_read _ _ c t tt
            (another-Reads (text_eq host_player.info.name me) g.enter_player host)
            (λ another _.
              after_read (load_player another) _ c t tt (load_player-Reads another) (λ other _ sent.
                (
                  me,
                  other.info.name,
                  (if text_eq host_player.info.name me then 0 else 1),
                  colour-bound (text_eq host_player.info.name me),
                  my_name-name_in_prev c me named,
                  sym (some_tt_injective _ t sent),
                ))))))
      e

hit_select-request :
    (fl : Floats) (click : F fl × F fl) (a : Address) (g : GameScene) (c t : Client)
    → IsAt a g c
    → hit_select fl click c ≡ some (tt, t)
    → (t ≡ c)
      ⊎ ((p : Pos) × (g.is_game_start ≡ true)
          × (g.is_my_turn ≡ true)
          × (find_cell fl g.taken click ≡ some p)
          × (request_stone g p c ≡ some (tt, t)))
unfolding hit_select
hit_select-request fl click a g c t at e = elim (Bool-cases g.is_game_start) [
  | inl started ↦ elim (Bool-cases g.is_my_turn) [
    | inl turn ↦ elim (Option-cases (find_cell fl g.taken click)) [
      | inl nowhere ↦ inl (ground (arith, at.0, at.1, nowhere))
      | inr (p, found) ↦ elim (Bool-cases (check_omok_ground fl click)) [
        | inl inside ↦ inr (p, started, turn, found, ground (arith, at.0, at.1))
        | inr outside ↦ inl (ground (arith, at.0, at.1))
      ]
    ]
    | inr waits ↦ inl (ground (arith, at.0, at.1))
  ]
  | inr idle ↦ inl (ground (arith, at.0, at.1))
]

is_hit-free : (near_it taken_it : Bool) → near_it && not taken_it ≡ true → taken_it ≡ false
is_hit-free true true h = ground arith
is_hit-free true false h = refl
is_hit-free false b h = absurd (ground arith)

empty_cell : (n : ℕ) (taken_it : Bool) → taken_it ≡ not (n == 0) → taken_it ≡ false → n ≡ 0
empty_cell n taken_it same free = ground arith

-- A click on the ground of a client that shows the server's board: either nothing happens, or the
-- game has begun, the client has the turn, and it sends under its own name a stone of one of the two
-- colours for a cell of the board that is empty on the server, near to the click, and the first such
-- cell of the two loops.
pub hit_select-Sent :
    (fl : Floats) (click : F fl × F fl) (b : Board) (a : Address) (g : GameScene) (c t : Client)
    → IsAt a g c
    → Agrees b g
    → hit_select fl click c ≡ some (tt, t)
    → (t ≡ c)
      ⊎ ((p : Pos) × (me another : WString) × (k : ℕ) × (g.is_game_start ≡ true)
          × (g.is_my_turn ≡ true)
          × IsFirstHit fl g.taken click (some p)
          × (b p.0 p.1 ≡ 0)
          × (k < 2)
          × (my_name c ≡ some (me, c))
          × (t ≡ sending_put c me another g.title_name p k))
hit_select-Sent fl click b a g c t at agree e = elim (hit_select-request fl click a g c t at e) [
  | inl nothing ↦ inl nothing
  | inr (p, started, turn, found, sent) ↦
      let first =
        subst (IsFirstHit fl g.taken click) found (find_cell-IsFirstHit fl g.taken click) in
      let (me, another, k, few, mine, result) = request_stone-Sent g p c t sent in
      inr (
        p,
        me,
        another,
        k,
        started,
        turn,
        first,
        empty_cell _ _ (agree p.0 p.1) (is_hit-free _ _ (first.2)),
        few,
        mine,
        result,
      )
]

-- While a game goes on, the buttons for starting, for being ready and for leaving do nothing.
buttons_in_game :
    (a : Address) (g : GameScene) (c : Client)
    → IsAt a g c
    → g.is_game_start ≡ true
    → (enter_player_check c ≡ some (false, c))
      × (hit_ready c ≡ some (tt, c))
      × (hit_exit c ≡ some (tt, c))
unfolding enter_player_check hit_ready hit_exit
buttons_in_game a g c at going =
    (ground (arith, at.0, at.1), ground (arith, at.0, at.1), ground (arith, at.0, at.1))

-- A click on the row of a room in the channel asks for the room under the client's own name.
request_room_entry-Sent :
    (title me : WString) (c : Client)
    → c.scene ≡ channel_scene
    → my_name c ≡ some (me, c)
    → request_room_entry title c
      ≡ some (
        tt,
        record c {
          sent =
              c.sent
              ++ (record { protocol = cs_requ_room_entry; fields = text title ∷ text me ∷ [] }
                  ∷ []);
        },
      )
unfolding request_room_entry
request_room_entry-Sent title me c here named = ground (arith, here, named)
