-- ===== src/Client/Tests/Dialogs.antt =====
-- The dialogs at concrete keys and clicks.
use network_omok.Base.{
  WString, ℕ, ◌≡◌, ◌⊎◌, refl, true, false, Option, some, none, List, [], ◌∷◌, ◌++◌, map, ◌==◌,
  arith, lookup, insert, text_eq,
}
use network_omok.Server.{Float, Server}
use network_omok.Server.Requests.{requ_create_room, open_room}
use network_omok.Server.Send.{broad_cast, send_all}
use network_omok.Server.Leave.Departure.{IsSound}
use network_omok.Server.Dispatch
use network_omok.Server.Dispatch.{packet_parsing}
use network_omok.Client.{RoomUi, Client, channel_scene}
use network_omok.Client.Rooms.Together.{starts, opens}
use network_omok.Client.Rooms.{create_room}
use network_omok.Server.Rooms.{new_room, entry_room}
use network_omok.Server.Rooms.Seats.{AllSeated}
use network_omok.Client.Buttons.Quick.{can_enter, hit_quick_start}
use network_omok.Client.Buttons.Quick.Admitted.{entry_request, hit_quick_start-Admitted}
use network_omok.Client.Tests.{id_a, title_r, playing, waiting, server}
use network_omok.Client.Dialogs.{Keys, vk_back}
use network_omok.Client.Dialogs.Events.{run, AllGood}
use network_omok.Client.Dialogs.Login.{LoginUi, new_login_ui}
use network_omok.Client.Dialogs.Login.Fields
use network_omok.Client.Dialogs.Login.Run
use network_omok.Client.Dialogs.Login.Run.{StaysHere, IsLogin, run-Logins}
use network_omok.Client.Dialogs.SignUp.{SignUpUi, new_sign_up_ui}
use network_omok.Client.Dialogs.SignUp.Inputs
use network_omok.Client.Dialogs.SignUp.Accounts
use network_omok.Client.Dialogs.SignUp.Accounts.{Any, IsAccount, run-Accounts}
use network_omok.Client.Dialogs.Room.{CreateRoomUi, new_create_room_ui, hit_ok, room_request}
use network_omok.Client.Dialogs.Room.Tidy
use network_omok.Client.Dialogs.Room.Tidy.{IsTidy, run-IsTidy}
use network_omok.Client.Dialogs.Room.Asked.{hit_ok-IsSound}
use network_omok.Wire.{ClientPacket, message_of}
use network_omok.Wire.Serve.Run.{AllSendable}

abbrev bits : Float → ℕ
bits f = 0

abbrev pressing : ℕ → Keys
pressing key k = k == key

-- The id A, the password B, and the button for the login.
abbrev logging_in : List Run.Event
logging_in =
    Run.click (700, 500)
    ∷ Run.frame (pressing b'A')
    ∷ Run.click (700, 570)
    ∷ Run.frame (pressing b'B')
    ∷ Run.frame (pressing vk_back)
    ∷ Run.frame (pressing b'B')
    ∷ Run.click (850, 700)
    ∷ []

run-Logins_example :
    (v : LoginUi) × (d : Client) × (pks : List ClientPacket) × (run Run.step logging_in
        (new_login_ui true)
        waiting
      ≡ some (v, d))
    × Fields.IsTyping v
    × (d.sent ≡ waiting.sent ++ map message_of pks)
    × AllGood Run.step StaysHere Fields.IsTyping IsLogin pks
    × AllSendable bits pks
run-Logins_example =
    run-Logins bits logging_in (new_login_ui true) waiting
      (record {
        id = record { keys_only = tt; bounded = ground arith };
        ps = record { keys_only = tt; bounded = ground arith };
        stars = refl;
      })
      (refl, (tt, (refl, (tt, (tt, (tt, (refl, tt)))))))

-- An id alone, and the button for a new account.
abbrev signing_up : List Accounts.Event
signing_up =
    Accounts.click (700, 380) ∷ Accounts.frame (pressing b'A') ∷ Accounts.click (750, 700) ∷ []

run-Accounts_example :
    (v : SignUpUi) × (d : Client) × (pks : List ClientPacket) × (run Accounts.step signing_up
        (new_sign_up_ui 800)
        waiting
      ≡ some (v, d))
    × Inputs.IsTyping 800 v
    × (d.sent ≡ waiting.sent ++ map message_of pks)
    × AllGood Accounts.step Any (Inputs.IsTyping 800) IsAccount pks
    × AllSendable bits pks
run-Accounts_example = run-Accounts 800 bits signing_up (new_sign_up_ui 800) waiting (record {
  id = record { field = record { keys_only = tt; bounded = ground arith }; placed = refl };
  ps = record { field = record { keys_only = tt; bounded = ground arith }; placed = refl };
  age = record { keys_only = tt; bounded = ground arith };
})

-- The dialog for a new room is opened, gets the title R, and is closed again.
abbrev giving_up : List Tidy.Event
giving_up = Tidy.room_make ∷ Tidy.click (800, 390) ∷ Tidy.frame (pressing b'R') ∷ Tidy.cancel ∷ []

run-IsTidy_example :
    (v : CreateRoomUi) × (Tidy.run giving_up new_create_room_ui ≡ some v) × IsTidy v
run-IsTidy_example = run-IsTidy giving_up new_create_room_ui (record {
  title = record { keys_only = tt; bounded = ground arith };
  ps = record { keys_only = tt; bounded = ground arith };
  closed = λ hidden. (refl, refl);
})

-- A in the channel, the server without a room, and the dialog with the title R.
abbrev in_channel : Client
in_channel = record (playing true) {
  is_game_scene = false;
  scene = channel_scene;
  channel = record ((playing true).channel) { room_map = []; ui_obj_list = []; obj_count = 0 };
}

abbrev no_rooms : Server
no_rooms = record server { room_map = []; room_count = 0 }

abbrev titled : CreateRoomUi
titled = record new_create_room_ui { hide = false; title_buffer = title_r }

abbrev asked : Client
asked = record in_channel { sent = room_request id_a titled ∷ [] }

abbrev outcome : Option (Unit {0} × Server) → Server
outcome none = no_rooms
outcome (some (done, t)) = t

abbrev made : Server
made = outcome (packet_parsing 10 (Dispatch.create_room id_a title_r []) no_rooms)

clicked : hit_ok titled in_channel ≡ some (tt, asked)
unfolding hit_ok lookup
clicked = refl

handled : packet_parsing 10 (Dispatch.create_room id_a title_r []) no_rooms ≡ some (tt, made)
unfolding packet_parsing requ_create_room open_room broad_cast send_all lookup insert text_eq
handled = refl

hit_ok-IsSound_example :
    (asked ≡ in_channel)
    ⊎ ((asked ≡ record in_channel { sent = in_channel.sent ++ (room_request id_a titled ∷ []) })
        × (lookup title_r no_rooms.room_map ≡ none)
        × IsSound made)
hit_ok-IsSound_example =
    hit_ok-IsSound titled in_channel asked no_rooms made id_a 10 [] refl refl clicked
      (starts no_rooms in_channel.channel refl refl) ((refl, tt, ground arith), tt) handled

-- A room that A has made, as the client of A still shows it from the channel, and its row.
abbrev one_room : Server
one_room = record no_rooms {
  room_map = insert title_r (record (new_room 0 title_r []) { host_player = some 0 }) [];
}

abbrev with_room : Client
with_room = record in_channel { channel = create_room id_a title_r 0 1 false in_channel.channel }

r_is_new : lookup title_r no_rooms.room_map ≡ none
unfolding lookup
r_is_new = refl

a_is_known : lookup id_a one_room.player_map ≡ some 0
unfolding lookup text_eq
a_is_known = refl

seated : AllSeated one_room.room_map
unfolding insert lookup
seated = ((refl, refl), tt)

hit_quick_start-Admitted_example :
    (d : Client) × (hit_quick_start with_room ≡ some (tt, d))
    × ((d ≡ with_room)
          × ((title : WString) (u : RoomUi)
              → lookup title with_room.channel.room_map ≡ some u
              → can_enter u ≡ false)
        ⊎ ((title : WString) × (d
              ≡ record with_room { sent = with_room.sent ++ (entry_request title id_a ∷ []) })
            × (entry_room title id_a one_room ≡ some (true, one_room))))
unfolding create_room
hit_quick_start-Admitted_example =
    hit_quick_start-Admitted one_room with_room id_a 0 refl refl
      (opens no_rooms in_channel.channel title_r [] id_a 0 (some 0)
        (starts no_rooms in_channel.channel refl refl) r_is_new)
      seated a_is_known
