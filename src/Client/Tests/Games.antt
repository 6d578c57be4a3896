-- ===== src/Client/Tests/Games.antt =====
-- Stones, the start and the end of a game, at concrete values.
use network_omok.Base.{
  ◌≡◌, inl, refl, Bool, true, false, not, some, List, [], ◌∷◌, map, ◌==◌, ◌&&◌, if◌then◌else◌,
  arith, lookup, text_eq,
}
use network_omok.Omok.{Board, clear_omok, put_stone}
use network_omok.Server
use network_omok.Server.{Server}
use network_omok.Server.Game.{finish_game, finish_message}
use network_omok.Client
use network_omok.Client.{Client, GameScene, set_playing, play_texture}
use network_omok.Client.Play.Agreement.{Put, play, Agrees}
use network_omok.Client.Dispatch.{process_all, process_packet}
use network_omok.Client.Dispatch.Turns.{IsAt, message_of, process_all-Agrees}
use network_omok.Client.Dispatch.Settled.{finish_game-as_client}
use network_omok.Client.Dispatch.Faults.{as_client}
use network_omok.Client.Tests.{
  id_a, id_b, title_r, player, game, row, playing, server, server_room, server_player,
}

abbrev two_stones : List Put
two_stones = (0, (9, 9)) ∷ (1, (9, 10)) ∷ []

abbrev after_two : Board
after_two y x = if y == 9 && x == 10 then 2 else (if y == 9 && x == 9 then 1 else clear_omok y x)

two_stones_played : play two_stones clear_omok ≡ some after_two
unfolding play put_stone clear_omok
two_stones_played = refl

empty-Agrees : (turn : Bool) → Agrees clear_omok (game turn)
unfolding clear_omok
empty-Agrees turn y x = refl

process_all-Agrees_example :
    (d d' : Client) × (h h' : GameScene) × (process_all (map message_of two_stones) (playing true)
      ≡ some (tt, d))
    × (process_all (map message_of two_stones) (playing false) ≡ some (tt, d'))
    × IsAt 0 h d
    × IsAt 0 h' d'
    × Agrees after_two h
    × Agrees after_two h'
    × (h'.is_my_turn ≡ not h.is_my_turn)
process_all-Agrees_example =
    process_all-Agrees two_stones clear_omok after_two 0 0 (game true) (game false) (playing true)
      (playing false) (refl, refl) (refl, refl) (empty-Agrees true) (empty-Agrees false) refl
      (ground arith, (ground arith, tt)) two_stones_played

r_found : lookup title_r (playing true).channel.room_map ≡ some row
unfolding lookup text_eq
r_found = refl

a_found : lookup id_a (playing true).player_map ≡ some 0
unfolding lookup text_eq
a_found = refl

a_not_b : text_eq id_a id_b ≡ false
unfolding text_eq
a_not_b = refl

b_not_a : text_eq id_b id_a ≡ false
unfolding text_eq
b_not_a = refl

server_room_found : lookup title_r server.room_map ≡ some server_room
unfolding lookup text_eq
server_room_found = refl

finish_game-as_client_example :
    (t : Server) × (d : Client) × (there : Server.Player) × (here : Client.Player) × (finish_game
        title_r 0 1 server
      ≡ some (tt, t))
    × (process_packet (finish_message id_a title_r) (playing true) ≡ some (tt, d))
    × (t.heap 0 ≡ some there)
    × (d.players (playing true).channel.player ≡ some here)
    × (here.info ≡ as_client there.info)
finish_game-as_client_example =
    finish_game-as_client server server_room 0 1 (server_player id_a 10) (server_player id_b 12)
      title_r (ground arith) server_room_found (inl (refl, refl)) refl refl (playing true) 0 0 1
      (game true) (player id_a) (player id_b) row refl refl refl refl refl (ground arith) refl refl
      a_not_b b_not_a refl r_found true true refl a_found refl
