-- ===== src/Client/Columns/Growing.antt =====
-- Steps of the handlers of Project/DXClient/ClientServer.cpp that come to their end and lose nothing
-- of the client: pointers that are there stay there.
use network_omok.Base.{
  ◌+◌, ◌≡◌, ◌⊎◌, inl, inr, refl, ◌∙◌, Option, some, arith, ◌==◌, Bool-cases, WString, lookup, ◌>>=◌,
  bind-some, pure, deref,
}
use network_omok.Server.{Address}
use network_omok.Client.{
  Player, GameScene, Client, Action, put_at, load_player, store_player, store_scene, new_scene,
  allocate_scene, find_player, the_player,
}

-- A player at an address, and one with a game scene.
abbrev pub HasPlayer : Client → Address → Type 0
HasPlayer c a = (p : Player) × (c.players a ≡ some p)

abbrev pub HasScene : Client → Address → Type 0
HasScene c a =
    (p : Player) × (scene : Address) × (g : GameScene) × (c.players a ≡ some p)
    × (p.player_in_game_scene ≡ some scene)
    × (c.scenes scene ≡ some g)

-- Nothing of these is lost, and the table of players and the channel stay.
pub record Grows (c d : Client) : Type 0 where
  pub map_same : d.player_map ≡ c.player_map
  pub channel_same : d.channel ≡ c.channel
  pub players : (a : Address) → HasPlayer c a → HasPlayer d a
  pub owners : (a : Address) → HasScene c a → HasScene d a
  pub scenes :
      (scene : Address) (g : GameScene)
      → c.scenes scene ≡ some g
      → (h : GameScene) × (d.scenes scene ≡ some h)

pub Grows-refl : (c : Client) → Grows c c
Grows-refl c = record {
  map_same = refl;
  channel_same = refl;
  players = λ a h. h;
  owners = λ a h. h;
  scenes = λ scene g h. (g, h);
}

pub Grows-trans : (c d e : Client) → Grows c d → Grows d e → Grows c e
Grows-trans c d e p q = record {
  map_same = q.map_same ∙ p.map_same;
  channel_same = q.channel_same ∙ p.channel_same;
  players = λ a h. q.players a (p.players a h);
  owners = λ a h. q.owners a (p.owners a h);
  scenes = λ scene g h. let (g', h') = p.scenes scene g h in q.scenes scene g' h';
}

-- An action returns, with a client that has grown and of which something holds.
abbrev pub Works : {A : Type 0} → Action A → Client → (A → Client → Type 0) → Type 0
Works {A} m c Then = (x : A) × (d : Client) × (m c ≡ some (x, d)) × Grows c d × Then x d

pub Works-bind :
    {A B : Type 0} (m : Action A) (f : A → Action B) (c : Client) (Then : A → Client → Type 0)
    (Last : B → Client → Type 0)
    → Works m c Then
    → ((x : A) (d : Client) → Grows c d → Then x d → Works (f x) d Last)
    → Works (m >>= f) c Last
Works-bind m f c Then Last (x, d, went, grows, holds) rest =
    let (y, e, went', grows', holds') = rest x d grows holds in
    (y, e, bind-some m f c d x _ went went', Grows-trans c d e grows grows', holds')

pub Works-then :
    {A : Type 0} (m : Action A) (c : Client) (Then Last : A → Client → Type 0)
    → Works m c Then
    → ((x : A) (d : Client) → Grows c d → Then x d → Last x d)
    → Works m c Last
Works-then m c Then Last (x, d, went, grows, holds) after =
    (x, d, went, grows, after x d grows holds)

pub done-Works : (c : Client) → Works (pure (tt {0})) c (λ _ _. Unit {0})
done-Works c = (tt, c, refl, Grows-refl c, tt)

-- What the client knows by an id.
abbrev pub Knows : Client → WString → Type 0
Knows c id = (a : Address) × (lookup id c.player_map ≡ some a) × HasPlayer c a

abbrev pub Owns : Client → WString → Type 0
Owns c id = (a : Address) × (lookup id c.player_map ≡ some a) × HasScene c a

pub Knows-Grows : (c d : Client) (id : WString) → Grows c d → Knows c id → Knows d id
Knows-Grows c d id grows (a, found, there) =
    (a, ground (arith, grows.map_same, found), grows.players a there)

pub Owns-Grows : (c d : Client) (id : WString) → Grows c d → Owns c id → Owns d id
Owns-Grows c d id grows (a, found, there) =
    (a, ground (arith, grows.map_same, found), grows.owners a there)

pub find_player-Works :
    (id : WString) (a : Address) (c : Client)
    → lookup id c.player_map ≡ some a
    → Works (find_player id) c (λ found _. found ≡ some a)
find_player-Works id a c found = (lookup id c.player_map, c, refl, Grows-refl c, found)

pub deref-Works :
    (o : Option Address) (a : Address) (c : Client) → o ≡ some a → Works (deref o) c (λ x _. x ≡ a)
deref-Works o a c is = (a, c, ground (arith, is), Grows-refl c, refl)

pub the_player-Works :
    (id : WString) (a : Address) (c : Client)
    → lookup id c.player_map ≡ some a
    → Works (the_player id) c (λ x _. x ≡ a)
the_player-Works id a c found = (a, c, ground (arith, found), Grows-refl c, refl)

-- The player of an owner, with its scene.
pub load_player-Works :
    (a : Address) (c : Client)
    → HasScene c a
    → Works (load_player a) c (λ p d.
      (scene : Address) × (g : GameScene) × (p.player_in_game_scene ≡ some scene)
      × (d.scenes scene ≡ some g))
load_player-Works a c (p, scene, g, live, in_scene, opened) =
    (p, c, ground (arith, live), Grows-refl c, (scene, g, in_scene, opened))

pub store_scene-Works :
    (scene : Address) (f : GameScene → GameScene) (g : GameScene) (c : Client)
    → c.scenes scene ≡ some g
    → Works (store_scene scene f) c (λ _ d. d.scenes scene ≡ some (f g))
store_scene-Works scene f g c there = (
  tt,
  record c { scenes = put_at c.scenes scene (some (f g)) },
  ground (arith, there),
  record {
    map_same = refl;
    channel_same = refl;
    players = λ a h. h;
    owners = λ a (p, s, h, live, in_scene, opened). elim (Bool-cases (scene == s)) [
      | inl same ↦ (p, s, f g, live, in_scene, ground (arith, same))
      | inr other ↦ (p, s, h, live, in_scene, ground (arith, other, opened))
    ];
    scenes = λ s h opened. elim (Bool-cases (scene == s)) [
      | inl same ↦ (f g, ground (arith, same))
      | inr other ↦ (h, ground (arith, other, opened))
    ];
  },
  ground arith,
)

-- `new` gives a scene, whatever was at its address before.
pub allocate_scene-Works :
    (c : Client) → Works allocate_scene c (λ scene d. d.scenes scene ≡ some new_scene)
allocate_scene-Works c = (
  c.next_scene,
  record c {
    scenes = put_at c.scenes c.next_scene (some new_scene);
    next_scene = c.next_scene + 1;
  },
  refl,
  record {
    map_same = refl;
    channel_same = refl;
    players = λ a h. h;
    owners = λ a (p, s, h, live, in_scene, opened). elim (Bool-cases (c.next_scene == s)) [
      | inl same ↦ (p, s, new_scene, live, in_scene, ground (arith, same))
      | inr other ↦ (p, s, h, live, in_scene, ground (arith, other, opened))
    ];
    scenes = λ s h opened. elim (Bool-cases (c.next_scene == s)) [
      | inl same ↦ (new_scene, ground (arith, same))
      | inr other ↦ (h, ground (arith, other, opened))
    ];
  },
  ground arith,
)

-- A change of a player that leaves it its scene, or gives it one that is there.
abbrev KeepsScene : Client → Player → Player → Type 0
KeepsScene c p q =
    (q.player_in_game_scene ≡ p.player_in_game_scene)
    ⊎ ((scene : Address) × (g : GameScene) × (q.player_in_game_scene ≡ some scene)
        × (c.scenes scene ≡ some g))

pub store_player-Works :
    (a : Address) (f : Player → Player) (p : Player) (c : Client)
    → c.players a ≡ some p
    → KeepsScene c p (f p)
    → Works (store_player a f) c (λ _ d. (d.players a ≡ some (f p)) × (d.scenes ≡ c.scenes))
store_player-Works a f p c there keeps = (
  tt,
  record c { players = put_at c.players a (some (f p)) },
  ground (arith, there),
  record {
    map_same = refl;
    channel_same = refl;
    players = λ b (q, live). elim (Bool-cases (a == b)) [
      | inl same ↦ (f p, ground (arith, same))
      | inr other ↦ (q, ground (arith, other, live))
    ];
    owners = λ b (q, s, h, live, in_scene, opened). elim (Bool-cases (a == b)) [
      | inl same ↦ elim keeps [
        | inl still ↦ (
          f p,
          s,
          h,
          ground (arith, same),
          ground (arith, same, still, in_scene, there, live),
          opened,
        )
        | inr (s', h', gets, opened') ↦ (f p, s', h', ground (arith, same), gets, opened')
      ]
      | inr other ↦ (q, s, h, ground (arith, other, live), in_scene, opened)
    ];
    scenes = λ s h opened. (h, opened);
  },
  (ground arith, refl),
)
