-- ===== src/Client/Play/Start.antt =====
-- The start of a game on a client: ClientServer::RecvGameStart of Project/DXClient/ClientServer.cpp.
use network_omok.Base.{
  ◌≡◌, ◌≢◌, refl, Bool, true, false, some, WString, if◌then◌else◌, arith, Option-cases, inl, inr,
  text_eq, text_eq_refl, lookup, lookup-adjust_self,
}
use network_omok.Omok
use network_omok.Server.{Address}
use network_omok.Client.{
  Player, GameScene, RoomUi, channel_scene, play_texture, Client, set_playing,
}
use network_omok.Client.Rooms.{set_texture}
use network_omok.Client.Ground.{clear_omok}
use network_omok.Client.Play.{recv_game_start}
use network_omok.Client.Play.Agreement.{Agrees}

-- A client past its login in a game scene of its own, with two players of two names.
module _ (c : Client) (scene host enter : Address) (g : GameScene) (hp ep : Player)
    (title host_id : WString) (row : RoomUi) (past : c.is_login_scene ≡ false)
    (scene_live : c.scenes scene ≡ some g) (host_of : g.host_player ≡ some host)
    (enter_of : g.enter_player ≡ some enter) (host_live : c.players host ≡ some hp)
    (enter_live : c.players enter ≡ some ep) (two : host ≢ enter)
    (host_in : hp.player_in_game_scene ≡ some scene)
    (names : text_eq hp.info.name ep.info.name ≡ false)
    (in_channel : (if c.is_game_scene then c.prev_scene else c.scene) ≡ channel_scene)
    (row_there : lookup title c.channel.room_map ≡ some row)
    (found : lookup host_id c.player_map ≡ some host) where
  -- A start packet for the client's own game: the handler returns, the scene shows the empty board of
  -- the server and has begun, the client has the turn exactly if it is the host, both players play,
  -- and the room's row says so.
  recv_game_start-Starts :
      (am_host : Bool)
      → c.channel.player ≡ (if am_host then host else enter)
      → (d : Client) × (h : GameScene) × (recv_game_start title host_id c ≡ some (tt, d))
        × (d.scenes scene ≡ some h)
        × Agrees Omok.clear_omok h
        × (h.is_game_start ≡ true)
        × (h.is_my_turn ≡ am_host)
        × (d.players host ≡ some (set_playing true hp))
        × (d.players enter ≡ some (set_playing true ep))
        × (lookup title d.channel.room_map ≡ some (set_texture play_texture row))
  unfolding recv_game_start clear_omok Omok.clear_omok
  recv_game_start-Starts am_host mine =
      let self = text_eq_refl hp.info.name in
      let self' = text_eq_refl ep.info.name in
      let changed =
        lookup-adjust_self title (set_texture play_texture) row c.channel.room_map row_there in
      elim (Option-cases (recv_game_start title host_id c)) [
        | inl crash ↦ absurd (ground (arith, self, self'))
        | inr ((x, d), went) ↦ (
          d,
          record g { taken = λ y x. false; is_game_start = true; is_my_turn = am_host },
          went,
          ground (arith, self, self'),
          λ y x. refl,
          refl,
          refl,
          ground (arith, self, self'),
          ground (arith, self, self'),
          ground (arith, self, self', changed),
        )
      ]
