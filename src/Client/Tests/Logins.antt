-- ===== src/Client/Tests/Logins.antt =====
-- Packets before and behind a login, at concrete values.
use network_omok.Base.{
  ◌≡◌, ◌≢◌, refl, true, false, some, none, List, [], ◌∷◌, ◌++◌, inl, inr, arith, lookup,
  if◌then◌else◌, ◌==◌,
}
use network_omok.Protocol.{sc_requ_account, sc_requ_player_ready}
use network_omok.Server.{Server, Message, Address, Field}
use network_omok.Server.Game.{finish_message}
use network_omok.Server.Send.{broad_cast}
use network_omok.Client.{Client, Player, channel_scene, game_scene, the_channel, scene_channel}
use network_omok.Client.Play.{recv_player_ready}
use network_omok.Client.Dispatch.{process_packet, process_all}
use network_omok.Client.Dispatch.Keep.{IsHome}
use network_omok.Client.Dispatch.Packets.{process_all-IsHome, room_list}
use network_omok.Client.Dispatch.Faults.{login_granted, login_of_another, finish_before_login}
use network_omok.Client.Tests.{
  id_a, id_b, title_r, server_info, server, user, waiting, playing, game,
}

login_of_another_example :
    (d : Client) × (p : Player) × (process_packet (login_granted (server_info id_b)) waiting
      ≡ some (tt, d))
    × (d.is_login ≡ true)
    × (d.scene ≡ channel_scene)
    × (d.players d.channel.player ≡ some p)
    × (p.info.name ≡ id_b)
login_of_another_example = login_of_another (server_info id_b) waiting refl refl

finish_before_login_example :
    (t : Server) × (before after : List (Address × Message)) × (broad_cast
        (finish_message id_a title_r)
        server
      ≡ some (tt, t))
    × (t.sent ≡ [] ++ (before ++ ((11, finish_message id_a title_r) ∷ after)))
    × ((c : Client)
        → lookup id_a c.player_map ≡ none
        → process_packet (finish_message id_a title_r) c ≡ none)
finish_before_login_example =
    finish_before_login ((10, user true id_a) ∷ []) [] 11 (user false []) server id_a title_r refl
      refl refl

abbrev ready : Message
ready = record { protocol = sc_requ_player_ready; fields = [] }

abbrev made_ready : Client
made_ready = record (playing true) {
  scenes = λ a.
      if 0 == a then some (record (game true) { is_ready = false }) else (playing true).scenes a;
}

readied : process_all (ready ∷ []) (playing true) ≡ some (tt, made_ready)
unfolding process_all process_packet recv_player_ready
readied = refl

other_protocol : sc_requ_player_ready ≢ sc_requ_account
other_protocol = ground arith

process_all-IsHome_example :
    IsHome made_ready
    × (made_ready.is_login ≡ true → the_channel made_ready ≡ some (made_ready.channel, made_ready))
    × (made_ready.is_login ≡ true
        → made_ready.is_game_scene ≡ false
        → scene_channel made_ready ≡ some (made_ready.channel, made_ready))
    × ((fs : List Field) (a : Address)
        → made_ready.scene ≡ game_scene a
        → process_packet (room_list fs) made_ready ≡ none)
process_all-IsHome_example =
    process_all-IsHome (ready ∷ []) (playing true) made_ready (other_protocol, tt)
      (inr (refl, inl refl)) readied
