-- ===== src/Server/Rooms/Effect.antt =====
-- What each handler does to the rooms.
use network_omok.Base.{
  bind-eq-some, ◌>>=◌, deref, ℕ, ◌≡◌, ap, ◌∙◌, ◌⊎◌, inl, inr, true, false, Option, some, WString,
  arith, lookup, adjust,
}
use network_omok.Omok.{Pos, Verdict, finished, unfinished, fault}
use network_omok.Server.{Address, Player, Message, Server, M, load}
use network_omok.Server.Frame.{sending}
use network_omok.Server.Send.{broad_cast, send_packet}
use network_omok.Server.Rooms.{set_room_state}
use network_omok.Server.Login.{SqlReply, requ_create_account}
use network_omok.Server.Requests.{requ_player_ready}
use network_omok.Server.Game.{
  requ_player_start, requ_put_stone, finish_game, store_stone, settle, stop_game, save_player,
  save_info, finish_message, put_message, conclude,
}

-- The rooms are as before.
abbrev pub SameRooms : Server → Server → Type 0
SameRooms s t = (t.room_map ≡ s.room_map) × (t.room_count ≡ s.room_count)

pub send_packet-SameRooms :
    (a : Address) (m : Message) (s t : Server) (x : Unit {0})
    → send_packet a m s ≡ some (x, t)
    → SameRooms s t
send_packet-SameRooms a m s t x e = ground arith

pub requ_create_account-SameRooms :
    (me : Address) (reply : SqlReply (Unit {0})) (s t : Server)
    → requ_create_account me reply s ≡ some (tt, t)
    → SameRooms s t
unfolding requ_create_account
requ_create_account-SameRooms me reply s t e = send_packet-SameRooms me _ s t tt e

pub requ_player_ready-SameRooms :
    (me : Address) (host : WString) (s t : Server)
    → requ_player_ready me host s ≡ some (tt, t)
    → SameRooms s t
unfolding requ_player_ready
requ_player_ready-SameRooms me host s t e = ground arith

pub broad_cast-SameRooms :
    (m : Message) (s t : Server) (x : Unit {0}) → broad_cast m s ≡ some (x, t) → SameRooms s t
unfolding broad_cast
broad_cast-SameRooms m s t x e = grind sending

save_player-SameRooms :
    (a : Address) (s t : Server) (x : Unit {0}) → save_player a s ≡ some (x, t) → SameRooms s t
unfolding save_player save_info
save_player-SameRooms a s t x e = grind arith

pub requ_player_start-Rooms :
    (me : Address) (title : WString) (s t : Server)
    → requ_player_start me title s ≡ some (tt, t)
    → SameRooms s t
      ⊎ (t.room_map ≡ adjust title (set_room_state true) s.room_map) × (t.room_count ≡ s.room_count)
unfolding requ_player_start broad_cast
requ_player_start-Rooms me title s t e = grind sending

settle-SameRooms :
    (put another : Address) (s t : Server) (x : Unit {0})
    → settle put another s ≡ some (x, t)
    → SameRooms s t
unfolding settle
settle-SameRooms put another s t x e = grind arith

stop_game-Rooms :
    (title : WString) (s t : Server) (x : Unit {0})
    → stop_game title s ≡ some (x, t)
    → (t.room_map ≡ adjust title (set_room_state false) s.room_map) × (t.room_count ≡ s.room_count)
unfolding stop_game
stop_game-Rooms title s t x e = grind arith

finish_game-Rooms :
    (title : WString) (put another : Address) (s t : Server)
    → finish_game title put another s ≡ some (tt, t)
    → (t.room_map ≡ adjust title (set_room_state false) s.room_map) × (t.room_count ≡ s.room_count)
unfolding finish_game
finish_game-Rooms title put another s t e =
    let (x1, s1, e1, r1) = bind-eq-some (settle put another) _ s t tt e in
    let (x2, s2, e2, r2) = bind-eq-some (load put) _ s1 t tt r1 in
    let (x3, s3, e3, r3) = bind-eq-some (stop_game title) _ s2 t tt r2 in
    let (x4, s4, e4, r4) =
      bind-eq-some (broad_cast (finish_message x2.info.id title)) _ s3 t tt r3 in
    let (x5, s5, e5, r5) = bind-eq-some (save_player put) _ s4 t tt r4 in
    ground (
      arith,
      settle-SameRooms put another s s1 x1 e1,
      stop_game-Rooms title s2 s3 x3 e3,
      broad_cast-SameRooms (finish_message x2.info.id title) s3 s4 x4 e4,
      save_player-SameRooms put s4 s5 x5 e5,
      save_player-SameRooms another s5 t tt r5,
    )

-- An action that keeps the rooms.
abbrev pub Keeps : {A : Type 0} → M A → Type 0
Keeps {A} m = (s t : Server) (a : A) → m s ≡ some (a, t) → SameRooms s t

pub Keeps-bind :
    {A B : Type 0} (m : M A) (f : A → M B) → Keeps m → ((a : A) → Keeps (f a)) → Keeps (m >>= f)
Keeps-bind m f first rest s t b e =
    let (a, u, went, left) = bind-eq-some m f s t b e in
    let (rooms, count) = first s u a went in
    let (rooms', count') = rest a u t b left in (rooms' ∙ rooms, count' ∙ count)

-- The rooms are as before, or the game in the room with the title has stopped.
abbrev pub StopsAtMost : WString → Server → Server → Type 0
StopsAtMost title s t =
    SameRooms s t
    ⊎ (t.room_map ≡ adjust title (set_room_state false) s.room_map) × (t.room_count ≡ s.room_count)

conclude-Rooms :
    (title : WString) (put another : Address) (v : Verdict) (s t : Server)
    → conclude title put another v s ≡ some (tt, t)
    → StopsAtMost title s t
unfolding conclude
conclude-Rooms title put another finished s t e = inr (finish_game-Rooms title put another s t e)
conclude-Rooms title put another unfinished s t e = inl (ground arith)
conclude-Rooms title put another fault s t e = absurd (ground arith)

pub load-SameRooms :
    (a : Address) (s t : Server) (p : Player) → load a s ≡ some (p, t) → SameRooms s t
load-SameRooms a s t p e = ground arith

pub deref-SameRooms :
    (o : Option Address) (s t : Server) (a : Address) → deref o s ≡ some (a, t) → SameRooms s t
deref-SameRooms o s t a e = ground arith

store_stone-SameRooms :
    (a : Address) (stone : ℕ) (p : Pos) (s t : Server) (x : Unit {0})
    → store_stone a stone p s ≡ some (x, t)
    → SameRooms s t
unfolding store_stone
store_stone-SameRooms a stone p s t x e = grind arith

-- A first action that keeps the rooms leaves the effect to the rest.
after :
    {A : Type 0} (title : WString) (m : M A) (f : A → M (Unit {0}))
    → Keeps m
    → ((a : A) (s t : Server) → f a s ≡ some (tt, t) → StopsAtMost title s t)
    → (s t : Server) → (m >>= f) s ≡ some (tt, t)
    → StopsAtMost title s t
after title m f keeps rest s t e =
    let (a, u, went, left) = bind-eq-some m f s t tt e in
    let (rooms, count) = keeps s u a went in
    elim (rest a u t left) [
      | inl (g, h) ↦ inl (g ∙ rooms, h ∙ count)
      | inr (g, h) ↦ inr (g ∙ ap (adjust title (set_room_state false)) rooms, h ∙ count)
    ]

-- Putting a stone leaves the rooms as they are, or ends the game in the room of the packet and changes
-- nothing else of the rooms.
pub requ_put_stone-Rooms :
    (me : Address) (put_id another_id title : WString) (p : Pos) (stone : ℕ) (s t : Server)
    → requ_put_stone me put_id another_id title p stone s ≡ some (tt, t)
    → StopsAtMost title s t
unfolding requ_put_stone
requ_put_stone-Rooms me put_id another_id title p stone s =
    after title (deref (lookup put_id s.player_map)) _ (deref-SameRooms _)
      (λ put. after title (store_stone put stone p) _ (store_stone-SameRooms put stone p) (λ _.
        after title (deref (lookup another_id s.player_map)) _ (deref-SameRooms _) (λ another.
          after title (store_stone another stone p) _ (store_stone-SameRooms another stone p) (λ _.
            after title (send_packet me (put_message p stone)) _ (send_packet-SameRooms me _) (λ _.
              after title (load another) _ (load-SameRooms another) (λ other.
                after title (send_packet other.client (put_message p stone)) _
                  (send_packet-SameRooms other.client _)
                  (λ _.
                    after title (load put) _ (load-SameRooms put)
                      (λ winner. conclude-Rooms title put another _))))))))
      s
