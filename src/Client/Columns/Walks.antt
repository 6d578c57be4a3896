-- ===== src/Client/Columns/Walks.antt =====
-- RecvRoomList of Project/DXClient/ClientServer.cpp: its loops over the rooms come to their end when
-- the client knows the players of the rooms.
use network_omok.Base.{
  ◌≡◌, inl, inr, refl, sym, subst, true, Option, some, List, [], ◌∷◌, WString, arith, text_eq,
  if◌then◌else◌, false, Bool-cases, pure, deref, ◌>>=◌, ◌>>◌,
}
use network_omok.Server.{Address}
use network_omok.Server.Login.{no_enter_player}
use network_omok.Client.{
  Player, GameScene, Client, Action, store_player, store_scene, load_player, find_player,
  the_player, allocate_scene, new_scene, set_game_scene, set_in_game_scene, channel_scene,
}
use network_omok.Client.Rooms.{RoomRow, create_room_uis}
use network_omok.Client.Lobby.{open_scenes, seat_players, recv_room_list}
use network_omok.Client.Columns.Growing.{
  HasPlayer, HasScene, Grows, Grows-trans, Works, Works-bind, Works-then, done-Works, Knows,
  Owns-Grows, find_player-Works, deref-Works, the_player-Works, load_player-Works,
  store_scene-Works, allocate_scene-Works, store_player-Works,
}
use network_omok.Client.Columns.Knowing.{
  KnowsEnter, KnowsAll, OwnsAll, KnowsEnter-Grows, KnowsAll-Grows, OwnsAll-Grows,
}

-- The two writes for one host, which owns the scene for what follows.
give_scene-Works :
    (a scene : Address) (f : GameScene → GameScene) (k : Action (Unit {0})) (c : Client)
    (Last : Unit {0} → Client → Type 0)
    → HasPlayer c a
    → (h : GameScene) × (c.scenes scene ≡ some h)
    → ((d : Client) → Grows c d → HasScene d a → Works k d Last)
    → Works (store_player a (set_game_scene (some scene)) >> (store_scene scene f >> k)) c Last
give_scene-Works a scene f k c Last (p, live) (h, opened) rest =
    let q : Player = set_game_scene (some scene) p in
    Works-bind (store_player a (set_game_scene (some scene))) (λ _. store_scene scene f >> k) c _
      Last
      (store_player-Works a (set_game_scene (some scene)) p c live (inr (scene, h, refl, opened)))
      (λ _ d g1 (live', same).
        let opened' : d.scenes scene ≡ some h = ground (arith, same, opened) in
        Works-bind (store_scene scene f) (λ _. k) d _ Last (store_scene-Works scene f h d opened')
          (λ _ e g2 _.
            rest e (Grows-trans c d e g1 g2) (g2.owners a (q, scene, h, live', refl, opened'))))

open_scenes-Works :
    (rows : List RoomRow) (c : Client)
    → KnowsAll c rows
    → Works (open_scenes rows) c (λ _ d. OwnsAll d rows)
unfolding open_scenes
open_scenes-Works [] c known = done-Works c
open_scenes-Works (r ∷ rows) c ((a, found, there), enter, others) =
    Works-bind (find_player r.host) _ c _ _ (find_player-Works r.host a c found) (λ o c1 g1 is.
      Works-bind allocate_scene _ c1 _ _ (allocate_scene-Works c1) (λ scene c2 g2 opened.
        Works-bind (deref o) _ c2 _ _ (deref-Works o a c2 is) (λ b c3 g3 b_is.
          let g = Grows-trans c c2 c3 (Grows-trans c c1 c2 g1 g2) g3 in
          give_scene-Works b scene (λ h. record h { host_player = some b }) (open_scenes rows) c3 _
            (subst (HasPlayer c3) (sym b_is) (g.players a there)) (g3.scenes scene new_scene opened)
            (λ c4 g4 owns.
              let g' = Grows-trans c c3 c4 g g4 in
              Works-then (open_scenes rows) c4 _ _
                (open_scenes-Works rows c4 (KnowsAll-Grows c c4 rows g' others))
                (λ _ d g5 all. (
                  Owns-Grows c4 d r.host g5
                      (a, ground (arith, g'.map_same, found), subst (HasScene c4) b_is owns),
                  KnowsEnter-Grows c d r.enter (Grows-trans c c4 d g' g5) enter,
                  all,
                ))))))

-- A flag of a player that is there.
flag-Works :
    (a : Address) (k : Action (Unit {0})) (c : Client)
    → HasPlayer c a
    → ((d : Client) → Grows c d → Works k d (λ _ _. Unit {0}))
    → Works (store_player a (set_in_game_scene true) >> k) c (λ _ _. Unit {0})
flag-Works a k c (p, live) rest =
    Works-bind (store_player a (set_in_game_scene true)) (λ _. k) c _ _
      (store_player-Works a (set_in_game_scene true) p c live (inl refl)) (λ _ d g _. rest d g)

-- The writes for a player that has entered.
abbrev seat_at : Address → Address → Address → Action (Unit {0})
seat_at a scene b =
    store_player b (set_game_scene (some scene))
    >> (store_player a (set_in_game_scene true) >> store_player b (set_in_game_scene true))

seat_at-Works :
    (a scene b : Address) (c : Client)
    → HasPlayer c a
    → HasPlayer c b
    → (h : GameScene) × (c.scenes scene ≡ some h)
    → Works (seat_at a scene b) c (λ _ _. Unit {0})
seat_at-Works a scene b c host (q, live) (h, opened) =
    let r : Player = set_game_scene (some scene) q in
    Works-bind (store_player b (set_game_scene (some scene)))
      (λ _. store_player a (set_in_game_scene true) >> store_player b (set_in_game_scene true)) c _
      _ (store_player-Works b (set_game_scene (some scene)) q c live (inr (scene, h, refl, opened)))
      (λ _ d g (live', _).
        flag-Works a (store_player b (set_in_game_scene true)) d (g.players a host) (λ e g'.
          let (q', live'') = g'.players b (r, live') in
          Works-then (store_player b (set_in_game_scene true)) e _ _
            (store_player-Works b (set_in_game_scene true) q' e live'' (inl refl)) (λ _ _ _ _. tt)))

abbrev show_enter : Option Address → GameScene → GameScene
show_enter o g = record g { enter_player = o }

abbrev seat_one : Address → Address → WString → Action (Unit {0})
seat_one a scene enter =
    find_player enter >>= λ o. store_scene scene (show_enter o) >> (deref o >>= seat_at a scene)

seat_one-Works :
    (a scene : Address) (enter : WString) (c : Client)
    → HasPlayer c a
    → (h : GameScene) × (c.scenes scene ≡ some h)
    → Knows c enter
    → Works (seat_one a scene enter) c (λ _ _. Unit {0})
seat_one-Works a scene enter c host (h, opened) (x, found, there) =
    Works-bind (find_player enter)
      (λ o. store_scene scene (show_enter o) >> (deref o >>= seat_at a scene)) c _ _
      (find_player-Works enter x c found)
      (λ o c1 g1 is.
        let (h1, opened1) = g1.scenes scene h opened in
        Works-bind (store_scene scene (show_enter o)) (λ _. deref o >>= seat_at a scene) c1 _ _
          (store_scene-Works scene (show_enter o) h1 c1 opened1)
          (λ _ c2 g2 opened2.
            Works-bind (deref o) (seat_at a scene) c2 _ _ (deref-Works o x c2 is) (λ b c3 g3 b_is.
              let g = Grows-trans c c2 c3 (Grows-trans c c1 c2 g1 g2) g3 in
              seat_at-Works a scene b c3 (g.players a host)
                (subst (HasPlayer c3) (sym b_is) (g.players x there))
                (g3.scenes scene (show_enter o h1) opened2))))

seat_choice-Works :
    (a scene : Address) (enter : WString) (c : Client)
    → HasPlayer c a
    → (h : GameScene) × (c.scenes scene ≡ some h)
    → KnowsEnter c enter
    → Works
        (if text_eq enter no_enter_player then pure tt else seat_one a scene enter)
        c
        (λ _ _. Unit {0})
seat_choice-Works a scene enter c host opened known =
    elim (Bool-cases (text_eq enter no_enter_player)) [
      | inl nobody ↦
          subst (λ b. Works (if b then pure tt else seat_one a scene enter) c (λ _ _. Unit {0}))
            (sym nobody) (done-Works c)
      | inr other ↦
          subst (λ b. Works (if b then pure tt else seat_one a scene enter) c (λ _ _. Unit {0}))
            (sym other) (seat_one-Works a scene enter c host opened (is_known known other))
    ]
  where
    is_known : KnowsEnter c enter → text_eq enter no_enter_player ≡ false → Knows c enter
    is_known (inl nobody) other = absurd (ground arith)
    is_known (inr known) other = known

-- What the loop does for one row, in front of what follows.
write_row-Works :
    (r : RoomRow) (a scene : Address) (h : GameScene) (k : Action (Unit {0})) (c : Client)
    → HasPlayer c a
    → c.scenes scene ≡ some h
    → KnowsEnter c r.enter
    → ((d : Client) → Grows c d → Works k d (λ _ _. Unit {0}))
    → Works
        (store_scene scene (λ g. record g { title_name = r.title })
          >> ((if text_eq r.enter no_enter_player then pure tt else seat_one a scene r.enter) >> k))
        c
        (λ _ _. Unit {0})
write_row-Works r a scene h k c host opened enter rest =
    let titled : GameScene = record h { title_name = r.title } in
    let seat = if text_eq r.enter no_enter_player then pure tt else seat_one a scene r.enter in
    Works-bind (store_scene scene (λ g. record g { title_name = r.title })) (λ _. seat >> k) c _ _
      (store_scene-Works scene (λ g. record g { title_name = r.title }) h c opened)
      (λ _ d g1 opened1.
        Works-bind seat (λ _. k) d _ _
          (seat_choice-Works a scene r.enter d (g1.players a host) (titled, opened1)
            (KnowsEnter-Grows c d r.enter g1 enter))
          (λ _ e g2 _. rest e (Grows-trans c d e g1 g2)))

seat_players-Works :
    (rows : List RoomRow) (c : Client)
    → OwnsAll c rows
    → Works (seat_players rows) c (λ _ _. Unit {0})
unfolding seat_players
seat_players-Works [] c known = done-Works c
seat_players-Works (r ∷ rows) c ((a, found, owns), enter, others) =
    Works-bind (the_player r.host) _ c _ _ (the_player-Works r.host a c found) (λ b c1 g1 b_is.
      let owns1 = subst (HasScene c1) (sym b_is) (g1.owners a owns) in
      Works-bind (load_player b) _ c1 _ _ (load_player-Works b c1 owns1)
        (λ p c2 g2 (place, h, in_scene, opened).
          Works-bind (deref p.player_in_game_scene) _ c2 _ _
            (deref-Works p.player_in_game_scene place c2 in_scene)
            (λ scene c3 g3 is.
              let g = Grows-trans c c2 c3 (Grows-trans c c1 c2 g1 g2) g3 in
              let (h3, opened3) : (h3 : GameScene) × (c3.scenes scene ≡ some h3) =
                g3.scenes scene h (subst (λ x. c2.scenes x ≡ some h) (sym is) opened) in
              let host = (Grows-trans c1 c2 c3 g2 g3).players b (owns1.0, owns1.3) in
              write_row-Works r b scene h3 (seat_players rows) c3 host opened3
                (KnowsEnter-Grows c c3 r.enter g enter)
                (λ d g'.
                  seat_players-Works rows d
                    (OwnsAll-Grows c d rows (Grows-trans c c3 d g g') others)))))

-- In its channel, a client that knows the players of the rooms gets through, and makes their rows.
pub recv_room_list-Works :
    (rows : List RoomRow) (c : Client)
    → c.scene ≡ channel_scene
    → KnowsAll c rows
    → (d : Client) × (recv_room_list rows c ≡ some (tt, d))
      × (d.channel ≡ create_room_uis rows c.channel)
unfolding recv_room_list
recv_room_list-Works rows c here known =
    let (_, e, opened, g1, owns) = open_scenes-Works rows c known in
    let (_, f, seated, g2, _) = seat_players-Works rows e owns in
    (
      record f { channel = create_room_uis rows f.channel },
      ground (arith, here, opened, seated),
      ground (arith, g1.channel_same, g2.channel_same),
    )
