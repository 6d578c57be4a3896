-- ===== src/Client/Dispatch/Faults.antt =====
-- Messages that reach a client before its own login: BroadCast of Project/NetLib/Session.cpp sends to
-- all connected sessions, and RecvLoginResult and RecvFinishGame of
-- Project/DXClient/ClientServer.cpp handle what comes.
use network_omok.Base.{
  ◌≡◌, refl, Bool, true, false, none, some, List, [], ◌∷◌, ◌++◌, ◌∙◌, ap, arith, WString,
  Option-cases, inl, inr, lookup,
}
use network_omok.Protocol.{rv_ok, sc_requ_login, ret_value}
use network_omok.Server.{Address, User, Message, Server, UserInfoDb}
use network_omok.Server.Game.{finish_message}
use network_omok.Server.Login.{info_fields, ret_field}
use network_omok.Server.Send.{broad_cast}
use network_omok.Server.Send.Delivery.{delivered, broad_cast-Sent}
use network_omok.Client.{Client, UserInfo, Player, channel_scene}
use network_omok.Client.Lobby.{recv_login_result}
use network_omok.Client.Play.{recv_finish_game}
use network_omok.Client.Dispatch.{process_packet}

-- A session in the list gets its copy.
delivered-at :
    (link : Address → Bool) (us vs : List (Address × User)) (a : Address) (u : User) (m : Message)
    → u.is_connect ≡ true
    → link a ≡ true
    → delivered link (us ++ ((a, u) ∷ vs)) m ≡ delivered link us m ++ ((a, m) ∷ delivered link vs m)
delivered-at link [] vs a u m up works = ground arith
delivered-at link ((b, w) ∷ us) vs a u m up works =
    ground (arith, delivered-at link us vs a u m up works)

finish-unknown :
    (winner title : WString) (c : Client)
    → lookup winner c.player_map ≡ none
    → process_packet (finish_message winner title) c ≡ none
unfolding process_packet recv_finish_game
finish-unknown winner title c unknown = ground (arith, unknown)

-- The end of a game is sent to every connected session whose link works, whether its user has logged
-- in or not; and a client that does not know the winner, as one at its login, dereferences a null
-- pointer when it handles this packet.
pub finish_before_login :
    (us vs : List (Address × User)) (a : Address) (u : User) (s : Server) (winner title : WString)
    → s.sessions ≡ us ++ ((a, u) ∷ vs)
    → u.is_connect ≡ true
    → s.link a ≡ true
    → (t : Server) × (before after : List (Address × Message)) × (broad_cast
          (finish_message winner title)
          s
        ≡ some (tt, t))
      × (t.sent ≡ s.sent ++ (before ++ ((a, finish_message winner title) ∷ after)))
      × ((c : Client)
          → lookup winner c.player_map ≡ none
          → process_packet (finish_message winner title) c ≡ none)
finish_before_login us vs a u s winner title there up works =
    let m = finish_message winner title in
    let (t, went, sent) = broad_cast-Sent m s in
    (
      t,
      delivered s.link us m,
      delivered s.link vs m,
      went,
      sent
          ∙ ap (λ ds. s.sent ++ ds)
              (ap (λ ss. delivered s.link ss m) there ∙ delivered-at s.link us vs a u m up works),
      finish-unknown winner title,
    )

-- The statistics of the server as a client has them.
abbrev pub as_client : UserInfoDb → UserInfo
as_client i = record {
  name = i.id;
  total_play_game_count = i.total_play_count;
  win_game_count = i.win_game_count;
  lose_game_count = i.lose_game_count;
  win_rate = i.win_rate;
}

-- The packet that tells everybody of a login.
abbrev pub login_granted : UserInfoDb → Message
login_granted i = record { protocol = sc_requ_login; fields = ret_field rv_ok ∷ info_fields i }

-- A client that waits for the result of its own login, and handles first the packet that tells of
-- the login of anybody: it takes that user for its own, and is logged in.
pub login_of_another :
    (i : UserInfoDb) (c : Client)
    → c.is_login_scene ≡ false
    → c.is_login ≡ false
    → (d : Client) × (p : Player) × (process_packet (login_granted i) c ≡ some (tt, d))
      × (d.is_login ≡ true)
      × (d.scene ≡ channel_scene)
      × (d.players d.channel.player ≡ some p)
      × (p.info.name ≡ i.id)
unfolding process_packet recv_login_result ret_value
login_of_another i c waits out =
    let p : Player = record {
      info = as_client i;
      is_game_scene = false;
      is_playing_game = false;
      player_in_game_scene = none;
    } in
    elim (Option-cases (process_packet (login_granted i) c)) [
      | inl crash ↦ absurd (ground arith)
      | inr ((x, d), went) ↦ (d, p, went, ground arith, ground arith, ground arith, refl)
    ]
