-- ===== src/Client/Dispatch/Opened.antt =====
-- RecvCreateRoom of Project/DXClient/ClientServer.cpp comes to its end, and makes the row.
use network_omok.Base.{
  ℕ, ◌≡◌, ◌⊎◌, ◌∙◌, inl, inr, refl, sym, subst, Bool, true, false, Option, none, some, arith,
  WString, if◌then◌else◌, lookup, text_eq, ◌>>=◌, ◌>>◌, pure, modify,
}
use network_omok.Server.{Address}
use network_omok.Client.{
  GameScene, Client, Action, ScenePointer, game_scene, set_in_game_scene, set_game_scene,
  store_player, store_scene, allocate_scene, new_scene, my_name, change_scene,
}
use network_omok.Client.Rooms.{create_room}
use network_omok.Client.Lobby.{open_own, open_other, recv_create_room}
use network_omok.Client.Columns.Growing.{
  HasPlayer, Grows, Grows-refl, Grows-trans, Works, Works-bind, Works-then, Knows, Knows-Grows,
  store_scene-Works, allocate_scene-Works, store_player-Works,
}
use network_omok.Client.Dispatch.Keep.{IsHome}
use network_omok.Client.Dispatch.Packets.{the_channel-some}

-- A scene at an address.
abbrev pub IsOpen : Client → Address → Type 0
IsOpen c scene = (g : GameScene) × (c.scenes scene ≡ some g)

pub flag_game_scene : (c : Client) → Grows c (record c { is_game_scene = true })
flag_game_scene c = record {
  map_same = refl;
  channel_same = refl;
  players = λ a h. h;
  owners = λ a h. h;
  scenes = λ scene g h. (g, h);
}

pub show_scene : (c : Client) (p : ScenePointer) → Grows c (record c { scene = p })
show_scene c p = record {
  map_same = refl;
  channel_same = refl;
  players = λ a h. h;
  owners = λ a h. h;
  scenes = λ scene g h. (g, h);
}

-- The two writes to the player of a host.
abbrev hosts : Address → Address → Action (Unit {0}) → Action (Unit {0})
hosts a scene k =
    store_player a (set_in_game_scene true) >> (store_player a (set_game_scene (some scene)) >> k)

hosts-Works :
    (a scene : Address) (k : Action (Unit {0})) (c : Client)
    → HasPlayer c a
    → IsOpen c scene
    → ((d : Client) → IsOpen d scene → Works k d (λ _ _. Unit {0}))
    → Works (hosts a scene k) c (λ _ _. Unit {0})
hosts-Works a scene k c (p, live) (g, opened) rest =
    Works-bind (store_player a (set_in_game_scene true))
      (λ _. store_player a (set_game_scene (some scene)) >> k) c _ _
      (store_player-Works a (set_in_game_scene true) p c live (inl refl))
      (λ _ d g1 (live', same).
        let opened' : d.scenes scene ≡ some g = ground (arith, same, opened) in
        Works-bind (store_player a (set_game_scene (some scene))) (λ _. k) d _ _
          (store_player-Works a (set_game_scene (some scene)) (set_in_game_scene true p) d live'
            (inr (scene, g, refl, opened')))
          (λ _ e g2 _. rest e (g2.scenes scene g opened')))

open_own-Works :
    (me scene : Address) (c : Client)
    → HasPlayer c me
    → IsOpen c scene
    → Works (open_own me scene) c (λ _ _. Unit {0})
unfolding open_own
open_own-Works me scene c live opened =
    let c1 : Client = record c { is_game_scene = true } in
    let set_host : GameScene → GameScene = λ g. record g { host_player = some me } in
    Works-bind (modify (λ c. record c { is_game_scene = true }))
      (λ _. hosts me scene (store_scene scene set_host >> change_scene (game_scene scene))) c
      (λ _ d. d ≡ c1) _ (tt, c1, refl, flag_game_scene c, refl)
      (λ _ d g1 _.
        hosts-Works me scene (store_scene scene set_host >> change_scene (game_scene scene)) d
          (g1.players me live) (g1.scenes scene opened.0 opened.1)
          (λ e (g, opened').
            Works-bind (store_scene scene set_host) (λ _. change_scene (game_scene scene)) e _ _
              (store_scene-Works scene set_host g e opened')
              (λ _ f _ _. (
                tt,
                record f { scene = game_scene scene },
                refl,
                show_scene f (game_scene scene),
                tt,
              ))))

-- The three writes for a host that is known.
abbrev show_host : Address → Address → Action (Unit {0})
show_host scene a =
    store_scene scene (λ g. record g { host_player = some a })
    >> (store_player a (set_in_game_scene true) >> store_player a (set_game_scene (some scene)))

show_host-Works :
    (scene a : Address) (c : Client)
    → HasPlayer c a
    → IsOpen c scene
    → Works (show_host scene a) c (λ _ _. Unit {0})
show_host-Works scene a c live (g, opened) =
    let f : GameScene → GameScene = λ g. record g { host_player = some a } in
    Works-bind (store_scene scene f)
      (λ _. store_player a (set_in_game_scene true) >> store_player a (set_game_scene (some scene)))
      c _ _ (store_scene-Works scene f g c opened)
      (λ _ d g1 opened1.
        let (p, live1) = g1.players a live in
        Works-bind (store_player a (set_in_game_scene true))
          (λ _. store_player a (set_game_scene (some scene))) d _ _
          (store_player-Works a (set_in_game_scene true) p d live1 (inl refl))
          (λ _ e g2 (live2, same).
            Works-then (store_player a (set_game_scene (some scene))) e _ _
              (store_player-Works a (set_game_scene (some scene)) (set_in_game_scene true p) e live2
                (inr (scene, f g, refl, ground (arith, same, opened1))))
              (λ _ _ _ _. tt)))

abbrev show_if : Address → Option Address → Action (Unit {0})
show_if scene o = elim o [ none ↦ pure tt | some a ↦ show_host scene a ]

open_other-Works :
    (host : WString) (scene : Address) (c : Client)
    → (lookup host c.player_map ≡ none) ⊎ Knows c host
    → IsOpen c scene
    → Works (open_other host scene) c (λ _ _. Unit {0})
unfolding open_other
open_other-Works host scene c (inl unknown) opened =
    (tt, c, ground (arith, unknown), Grows-refl c, tt)
open_other-Works host scene c (inr (a, found, live)) opened =
    let (x, d, went, g, _) = show_host-Works scene a c live opened in
    (x, d, subst (λ o. show_if scene o c ≡ some (x, d)) (sym found) went, g, tt)

pub my_name-Works : (c : Client) → HasPlayer c c.channel.player → Works my_name c (λ _ d. d ≡ c)
my_name-Works c (p, live) = (p.info.name, c, ground (arith, live), Grows-refl c, refl)

-- What the handler does behind the row: it makes the scene, and seats the host.
abbrev make_scene : WString → WString → Address → Action (Unit {0})
make_scene host title own = allocate_scene >>= λ scene.
    store_scene scene (λ g. record g { title_name = title; is_host = true })
    >> (my_name >>= λ me. if text_eq host me then open_own own scene else open_other host scene)

pub either-Works :
    (b : Bool) (m k : Action (Unit {0})) (c : Client)
    → Works m c (λ _ _. Unit {0})
    → Works k c (λ _ _. Unit {0})
    → Works (if b then m else k) c (λ _ _. Unit {0})
either-Works true m k c one other = one
either-Works false m k c one other = other

known_on :
    (c d : Client) (host : WString)
    → Grows c d
    → (lookup host c.player_map ≡ none) ⊎ Knows c host
    → (lookup host d.player_map ≡ none) ⊎ Knows d host
known_on c d host g (inl unknown) = inl (ground (arith, g.map_same, unknown))
known_on c d host g (inr known) = inr (Knows-Grows c d host g known)

make_scene-Works :
    (host title : WString) (own : Address) (c : Client)
    → HasPlayer c own
    → HasPlayer c c.channel.player
    → (lookup host c.player_map ≡ none) ⊎ Knows c host
    → Works (make_scene host title own) c (λ _ _. Unit {0})
make_scene-Works host title own c mine me known =
    let titled : GameScene → GameScene = λ g. record g { title_name = title; is_host = true } in
    Works-bind allocate_scene
      (λ scene.
        store_scene scene titled
        >> (my_name >>= λ me.
            if text_eq host me then open_own own scene else open_other host scene))
      c _ _ (allocate_scene-Works c)
      (λ scene c1 g1 opened.
        Works-bind (store_scene scene titled)
          (λ _.
            my_name >>= λ me. if text_eq host me then open_own own scene else open_other host scene)
          c1 _ _ (store_scene-Works scene titled new_scene c1 opened)
          (λ _ c2 g2 opened2.
            let g = Grows-trans c c1 c2 g1 g2 in
            let live : HasPlayer c2 c2.channel.player =
              subst (λ cs. HasPlayer c2 cs.player) (sym g.channel_same) (g.players _ me) in
            Works-bind my_name
              (λ me. if text_eq host me then open_own own scene else open_other host scene) c2 _ _
              (my_name-Works c2 live)
              (λ name c3 g3 _.
                let opened3 = g3.scenes scene (titled new_scene) opened2 in
                let g' = Grows-trans c c2 c3 g g3 in
                either-Works (text_eq host name) (open_own own scene) (open_other host scene) c3
                  (open_own-Works own scene c3 (g'.players own mine) opened3)
                  (open_other-Works host scene c3 (known_on c c3 host g' known) opened3))))

recv_create_room-make :
    (host title : WString) (index : ℕ) (c : Client)
    → IsHome c
    → c.is_login_scene ≡ false
    → c.is_login ≡ true
    → recv_create_room host title index c
      ≡ make_scene host title c.channel.player
          (record c { channel = create_room host title index 1 false c.channel })
unfolding recv_create_room
recv_create_room-make host title index c home behind logged =
    ground (arith, behind, logged, the_channel-some c home logged)

-- A client that is home and logged in gets through, and has made the row of the room.
pub recv_create_room-Works :
    (host title : WString) (index : ℕ) (c : Client)
    → IsHome c
    → c.is_login_scene ≡ false
    → c.is_login ≡ true
    → HasPlayer c c.channel.player
    → (lookup host c.player_map ≡ none) ⊎ Knows c host
    → (d : Client) × (recv_create_room host title index c ≡ some (tt, d))
      × (d.channel ≡ create_room host title index 1 false c.channel)
unfolding recv_create_room create_room
recv_create_room-Works host title index c home behind logged me known =
    let c1 : Client = record c { channel = create_room host title index 1 false c.channel } in
    let (_, d, went, g, _) = make_scene-Works host title c.channel.player c1 me me known in
    (d, recv_create_room-make host title index c home behind logged ∙ went, g.channel_same)
