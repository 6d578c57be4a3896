-- ===== src/Client/Dispatch/Entered.antt =====
-- RecvEnterUserInRoom of Project/DXClient/ClientServer.cpp comes to its end, and changes the row.
use network_omok.Base.{
  ◌≡◌, ◌∙◌, inr, refl, sym, subst, true, false, Option, some, arith, WString, if◌then◌else◌, lookup,
  text_eq, ◌>>=◌, ◌>>◌, pure, deref, modify,
}
use network_omok.Server.{Address}
use network_omok.Client.{
  Player, GameScene, RoomUi, Client, Action, game_scene, set_game_scene, store_player, load_player,
  store_scene, my_name, change_scene, the_channel,
}
use network_omok.Client.Rooms.{enter_player_in_room}
use network_omok.Client.Rooms.Together.{with_row}
use network_omok.Client.Lobby.{recv_enter_user}
use network_omok.Client.Columns.Growing.{
  HasPlayer, Grows-refl, Grows-trans, Works, Works-bind, done-Works, Knows, Owns, deref-Works,
  store_scene-Works, store_player-Works,
}
use network_omok.Client.Dispatch.Keep.{IsHome}
use network_omok.Client.Dispatch.Packets.{the_channel-some}
use network_omok.Client.Dispatch.Opened.{
  IsOpen, flag_game_scene, show_scene, my_name-Works, either-Works,
}

-- The client's own entry: it goes into the scene of the game.
abbrev go_in : Address → Action (Unit {0})
go_in scene =
    store_scene scene (λ g. record g { is_host = false })
    >> (change_scene (game_scene scene) >> modify (λ c. record c { is_game_scene = true }))

go_in-Works :
    (scene : Address) (c : Client) → IsOpen c scene → Works (go_in scene) c (λ _ _. Unit {0})
go_in-Works scene c (g, opened) =
    let f : GameScene → GameScene = λ g. record g { is_host = false } in
    Works-bind (store_scene scene f)
      (λ _. change_scene (game_scene scene) >> modify (λ c. record c { is_game_scene = true })) c _
      _ (store_scene-Works scene f g c opened)
      (λ _ d _ _.
        let e : Client = record d { scene = game_scene scene } in
        (
          tt,
          record e { is_game_scene = true },
          refl,
          Grows-trans d e (record e { is_game_scene = true }) (show_scene d (game_scene scene))
              (flag_game_scene e),
          tt,
        ))

-- The end of the handler, from the scene of the host.
abbrev take_seat : Address → Option Address → Action (Unit {0})
take_seat scene found =
    store_scene scene (λ g. record g { enter_player = found })
    >> (deref found >>= λ b.
        store_player b (set_game_scene (some scene))
        >> (my_name >>= λ me.
            load_player b >>= λ p. if text_eq me p.info.name then go_in scene else pure tt))

any_player-Works :
    (a : Address) (c : Client) → HasPlayer c a → Works (load_player a) c (λ _ _. Unit {0})
any_player-Works a c (p, live) = (p, c, ground (arith, live), Grows-refl c, tt)

take_seat-Works :
    (scene : Address) (found : Option Address) (x : Address) (c : Client)
    → found ≡ some x
    → IsOpen c scene
    → HasPlayer c x
    → HasPlayer c c.channel.player
    → Works (take_seat scene found) c (λ _ _. Unit {0})
take_seat-Works scene found x c is (g, opened) there own =
    let f : GameScene → GameScene = λ g. record g { enter_player = found } in
    let last : Address → WString → Player → Action (Unit {0}) =
      λ b me p. if text_eq me p.info.name then go_in scene else pure tt in
    Works-bind (store_scene scene f)
      (λ _. deref found >>= λ b.
        store_player b (set_game_scene (some scene))
        >> (my_name >>= λ me. load_player b >>= last b me))
      c _ _ (store_scene-Works scene f g c opened)
      (λ _ c1 g1 opened1.
        Works-bind (deref found)
          (λ b.
            store_player b (set_game_scene (some scene))
            >> (my_name >>= λ me. load_player b >>= last b me))
          c1 _ _ (deref-Works found x c1 is)
          (λ b c2 g2 b_is.
            let to = Grows-trans c c1 c2 g1 g2 in
            let (q, live) : HasPlayer c2 b = subst (HasPlayer c2) (sym b_is) (to.players x there) in
            let (h, opened2) = g2.scenes scene (f g) opened1 in
            Works-bind (store_player b (set_game_scene (some scene)))
              (λ _. my_name >>= λ me. load_player b >>= last b me) c2 _ _
              (store_player-Works b (set_game_scene (some scene)) q c2 live
                (inr (scene, h, refl, opened2)))
              (λ _ c3 g3 (live3, _).
                let to3 = Grows-trans c c2 c3 to g3 in
                Works-bind my_name (λ me. load_player b >>= last b me) c3 _ _
                  (my_name-Works c3 (
                    subst (λ cs. HasPlayer c3 cs.player) (sym to3.channel_same)
                      (to3.players _ own)))
                  (λ me c4 g4 _.
                    Works-bind (load_player b) (last b me) c4 _ _
                      (any_player-Works b c4 (g4.players b (set_game_scene (some scene) q, live3)))
                      (λ p c5 g5 _.
                        either-Works (text_eq me p.info.name) (go_in scene) (pure tt) c5
                          (go_in-Works scene c5 (
                            let (h3, opened3) = g3.scenes scene h opened2 in
                            (Grows-trans c3 c4 c5 g4 g5).scenes scene h3 opened3))
                          (done-Works c5))))))

recv_enter_user-seat :
    (host enter title : WString) (a scene : Address) (p : Player) (u : RoomUi) (c : Client)
    → c.is_login_scene ≡ false
    → the_channel c ≡ some (c.channel, c)
    → lookup title c.channel.room_map ≡ some u
    → lookup host c.player_map ≡ some a
    → c.players a ≡ some p
    → p.player_in_game_scene ≡ some scene
    → recv_enter_user host enter title c
      ≡ take_seat scene
          (lookup enter c.player_map)
          (record c { channel = with_row title (enter_player_in_room 2) c.channel })
unfolding recv_enter_user
recv_enter_user-seat host enter title a scene p u c behind channel row found live in_scene =
    ground (arith, behind, channel, row, found, live, in_scene)

-- A client that is home and logged in, with the row, the host in its scene and the player that
-- enters: it gets through, and the row shows two players.
pub recv_enter_user-Works :
    (host enter title : WString) (u : RoomUi) (c : Client)
    → IsHome c
    → c.is_login_scene ≡ false
    → c.is_login ≡ true
    → HasPlayer c c.channel.player
    → lookup title c.channel.room_map ≡ some u
    → Owns c host
    → Knows c enter
    → (d : Client) × (recv_enter_user host enter title c ≡ some (tt, d))
      × (d.channel ≡ with_row title (enter_player_in_room 2) c.channel)
recv_enter_user-Works host enter title u c home behind logged own row (a, found, owns) known =
    let (p, scene, g, live, in_scene, opened) = owns in
    let (x, found', there) = known in
    let c1 : Client = record c { channel = with_row title (enter_player_in_room 2) c.channel } in
    let (_, d, went, grows, _) =
      take_seat-Works scene (lookup enter c.player_map) x c1 found' (g, opened) there own in
    (
      d,
      recv_enter_user-seat host enter title a scene p u c behind (the_channel-some c home logged)
            row found live in_scene
          ∙ went,
      grows.channel_same,
    )
