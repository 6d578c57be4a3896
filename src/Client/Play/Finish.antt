-- ===== src/Client/Play/Finish.antt =====
-- The end of a game on a client: ClientServer::RecvFinishGame of Project/DXClient/ClientServer.cpp.
use network_omok.Base.{
  ◌≡◌, ◌≢◌, Bool, false, not, some, WString, if◌then◌else◌, arith, Option-cases, inl, inr, text_eq,
  text_eq_refl, lookup, lookup-adjust_self,
}
use network_omok.Server.{Address}
use network_omok.Client.{UserInfo, Player, GameScene, channel_scene, wait_texture, Client, RoomUi}
use network_omok.Client.Rooms.{set_texture}
use network_omok.Client.Play.{win_game, lose_game, end_game, count_game, recv_finish_game}

-- A player behind a game.
abbrev pub counted : Bool → UserInfo → UserInfo
counted won info = if won then win_game info else lose_game info

-- A player behind the end of the game; a client counts it only for its own.
abbrev pub finished_player : Bool → Bool → Player → Player
finished_player own won p = record p {
  is_playing_game = false;
  info = if own then counted won p.info else p.info;
}

-- A game on a client: its scene with the two players, which are two and have two names, and the row
-- of its room.
module _ (c : Client) (scene host enter : Address) (g : GameScene) (hp ep : Player)
    (title winner : WString) (row : RoomUi) (scene_live : c.scenes scene ≡ some g)
    (host_of : g.host_player ≡ some host) (enter_of : g.enter_player ≡ some enter)
    (host_live : c.players host ≡ some hp) (enter_live : c.players enter ≡ some ep)
    (two : host ≢ enter) (host_in : hp.player_in_game_scene ≡ some scene)
    (enter_in : ep.player_in_game_scene ≡ some scene)
    (names : text_eq hp.info.name ep.info.name ≡ false)
    (names' : text_eq ep.info.name hp.info.name ≡ false)
    (in_channel : (if c.is_game_scene then c.prev_scene else c.scene) ≡ channel_scene)
    (row_there : lookup title c.channel.room_map ≡ some row) where
  -- What the handler leaves behind.
  abbrev IsFinished : Bool → Bool → Client → Type 0
  IsFinished am_host host_won d =
      (d.scenes scene ≡ some (end_game g))
      × (d.players host ≡ some (finished_player am_host host_won hp))
      × (d.players enter ≡ some (finished_player (not am_host) (not host_won) ep))
      × (d.channel.shown
          ≡ record (if am_host then counted host_won hp.info else counted (not host_won) ep.info) {
            name = c.channel.shown.name;
          })
      × (lookup title d.channel.room_map ≡ some (set_texture wait_texture row))

  -- A finish packet for the game that the client plays, whether it is the host or has entered, and
  -- whoever has won: the handler returns. The scene is set back, without stones and without a turn;
  -- neither player plays; the client has counted a win or a loss for itself, once, and shows it; and
  -- the room's row says that it waits.
  pub recv_finish_game-IsFinished :
      (am_host host_won : Bool)
      → c.channel.player ≡ (if am_host then host else enter)
      → lookup winner c.player_map ≡ some (if host_won then host else enter)
      → (d : Client) × (recv_finish_game winner title c ≡ some (tt, d))
        × IsFinished am_host host_won d
  unfolding recv_finish_game count_game
  recv_finish_game-IsFinished am_host host_won mine found =
      let self = text_eq_refl hp.info.name in
      let self' = text_eq_refl ep.info.name in
      let changed =
        lookup-adjust_self title (set_texture wait_texture) row c.channel.room_map row_there in
      elim (Option-cases (recv_finish_game winner title c)) [
        | inl crash ↦ absurd (ground (arith, self, self'))
        | inr ((x, d), went) ↦ (d, went, ground (arith, self, self', changed))
      ]
