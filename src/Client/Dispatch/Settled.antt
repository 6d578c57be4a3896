-- ===== src/Client/Dispatch/Settled.antt =====
-- The statistics of a player on the server and on its own client behind a game: Player.cpp of
-- Project/DXServer with ParsingRequPutStone, and Player.cpp of Project/DXClient with RecvFinishGame.
use network_omok.Base.{
  ◌≡◌, ◌≢◌, refl, Bool, true, false, not, Option, some, WString, if◌then◌else◌, lookup, text_eq,
  ◌∙◌, ap, sym,
}
use network_omok.Server
use network_omok.Server.{Address, Server, UserInfoDb, Room}
use network_omok.Server.Game.{finish_game, finish_message}
use network_omok.Server.Players
use network_omok.Server.Game.Outcome.{won, lost, SeatsAre, finish_game-Outcome}
use network_omok.Client
use network_omok.Client.{Client, GameScene, RoomUi, channel_scene, UserInfo}
use network_omok.Client.Play.{win_game, lose_game, recv_finish_game}
use network_omok.Client.Play.Finish.{finished_player, recv_finish_game-IsFinished}
use network_omok.Client.Dispatch.{process_packet}
use network_omok.Client.Dispatch.Faults.{as_client}

-- Both sides count in the same way.
win_game-as_client : (i : UserInfoDb) → as_client (Players.win_game i) ≡ win_game (as_client i)
unfolding win_game Players.win_game
win_game-as_client i = refl

lose_game-as_client : (i : UserInfoDb) → as_client (Players.lose_game i) ≡ lose_game (as_client i)
unfolding lose_game Players.lose_game
lose_game-as_client i = refl

-- The client's own player: the host or the one that has entered, the winner `p` or the loser `q`.
own_info :
    (am_host host_won : Bool) (hp ep : Client.Player) (p q : Server.Player)
    → (if am_host then hp.info else ep.info)
      ≡ as_client (if if am_host then host_won else not host_won then p.info else q.info)
    → (if am_host
        then finished_player am_host host_won hp
        else finished_player (not am_host) (not host_won) ep).info
      ≡ as_client (if if am_host then host_won else not host_won then won p else lost q).info
own_info true true hp ep p q same = ap win_game same ∙ sym (win_game-as_client p.info)
own_info true false hp ep p q same = ap lose_game same ∙ sym (lose_game-as_client q.info)
own_info false true hp ep p q same = ap lose_game same ∙ sym (lose_game-as_client q.info)
own_info false false hp ep p q same = ap win_game same ∙ sym (win_game-as_client p.info)

process_packet-finish :
    (winner title : WString) (c : Client)
    → process_packet (finish_message winner title) c ≡ recv_finish_game winner title c
unfolding process_packet
process_packet-finish winner title c = refl

either :
    {A : Type 0} (b : Bool) (heap : Address → Option A) (x y : Address) (p q : A)
    → heap x ≡ some p
    → heap y ≡ some q
    → heap (if b then x else y) ≡ some (if b then p else q)
either true heap x y p q here there = here
either false heap x y p q here there = there

-- A game between two players of a room on the server, and one of their two clients with its scene of
-- the game: `am_host` says which it is, `host_won` who has won.
module _ (s : Server) (r : Room) (put another : Address) (p q : Server.Player) (title : WString)
    (ne : put ≢ another) (room_there : lookup title s.room_map ≡ some r)
    (seats : SeatsAre r put another) (put_live : s.heap put ≡ some p)
    (another_live : s.heap another ≡ some q) (c : Client) (scene host enter : Address)
    (g : GameScene) (hp ep : Client.Player) (row : RoomUi) (scene_live : c.scenes scene ≡ some g)
    (host_of : g.host_player ≡ some host) (enter_of : g.enter_player ≡ some enter)
    (host_live : c.players host ≡ some hp) (enter_live : c.players enter ≡ some ep)
    (two : host ≢ enter) (host_in : hp.player_in_game_scene ≡ some scene)
    (enter_in : ep.player_in_game_scene ≡ some scene)
    (names : text_eq hp.info.name ep.info.name ≡ false)
    (names' : text_eq ep.info.name hp.info.name ≡ false)
    (in_channel : (if c.is_game_scene then c.prev_scene else c.scene) ≡ channel_scene)
    (row_there : lookup title c.channel.room_map ≡ some row) (am_host host_won : Bool)
    (mine : c.channel.player ≡ (if am_host then host else enter))
    (found : lookup p.info.id c.player_map ≡ some (if host_won then host else enter)) where
  -- Whether the client's own player has won.
  abbrev i_won : Bool
  i_won = if am_host then host_won else not host_won

  -- If the client has the statistics of its own player as the server has them, then it has them so
  -- again when the server has finished the game and the client has handled the packet that tells so;
  -- both the server and the client get that far.
  pub finish_game-as_client :
      (if am_host then hp.info else ep.info) ≡ as_client (if i_won then p.info else q.info)
      → (t : Server) × (d : Client) × (there : Server.Player) × (here : Client.Player)
        × (finish_game title put another s ≡ some (tt, t))
        × (process_packet (finish_message p.info.id title) c ≡ some (tt, d))
        × (t.heap (if i_won then put else another) ≡ some there)
        × (d.players c.channel.player ≡ some here)
        × (here.info ≡ as_client there.info)
  finish_game-as_client same =
      let (t, went, winner, loser, rooms, calls) =
        finish_game-Outcome title put another s r p q ne room_there seats put_live another_live in
      let (d, handled, done) =
        recv_finish_game-IsFinished c scene host enter g hp ep title p.info.id row scene_live
          host_of enter_of host_live enter_live two host_in enter_in names names' in_channel
          row_there am_host host_won mine found in
      (
        t,
        d,
        (if i_won then won p else lost q),
        (if am_host
            then finished_player am_host host_won hp
            else finished_player (not am_host) (not host_won) ep),
        went,
        process_packet-finish p.info.id title c ∙ handled,
        either i_won t.heap put another (won p) (lost q) winner loser,
        ap d.players mine ∙ either am_host d.players host enter _ _ done.1 done.2,
        own_info am_host host_won hp ep p q same,
      )
