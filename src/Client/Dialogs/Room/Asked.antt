-- ===== src/Client/Dialogs/Room/Asked.antt =====
-- Project/DXClient/OkButton.cpp: what the dialog for a new room asks of the server.
use network_omok.Base.{
  ◌≡◌, ◌⊎◌, inl, inr, none, some, [], ◌∷◌, ◌++◌, WString, length, arith, ◌==◌, Bool-cases,
  Option-cases, lookup,
}
use network_omok.Server.{Address, Server}
use network_omok.Server.Leave.Departure.{IsSound}
use network_omok.Server.Dispatch.{create_room, packet_parsing}
use network_omok.Server.Dispatch.Invariant.{packet_parsing-IsSound}
use network_omok.Client.{channel_scene, Client, my_name}
use network_omok.Client.Rooms.Together.{AreTogether, AreTogether-IsMirror}
use network_omok.Client.Dialogs.Room.{CreateRoomUi, room_request, hit_ok}

-- A title that a client does not show is that of no room.
unknown_title :
    (s : Server) (c : Client) (title : WString)
    → AreTogether s c.channel
    → lookup title c.channel.room_map ≡ none
    → lookup title s.room_map ≡ none
unknown_title s c title together unknown =
    let same = (AreTogether-IsMirror s c.channel together).same title in
    elim (Option-cases (lookup title s.room_map)) [
      | inl free ↦ free
      | inr (r, there) ↦ absurd (ground (arith, same, unknown, there))
    ]

-- A click on OK in the channel either changes nothing, or sends one packet: the client's own name and
-- the title, with the password if there is one. If the client shows the rooms of the server, and the
-- server handles this request for a room before anything else happens to its rooms, then, whatever it
-- reads for the password, its rooms stay sound.
pub hit_ok-IsSound :
    (ui : CreateRoomUi) (c d : Client) (s t : Server) (host : WString) (me : Address) (ps : WString)
    → c.scene ≡ channel_scene
    → my_name c ≡ some (host, c)
    → hit_ok ui c ≡ some (tt, d)
    → AreTogether s c.channel
    → IsSound s
    → packet_parsing me (create_room host ui.title_buffer ps) s ≡ some (tt, t)
    → (d ≡ c)
      ⊎ ((d ≡ record c { sent = c.sent ++ (room_request host ui ∷ []) })
          × (lookup ui.title_buffer s.room_map ≡ none)
          × IsSound t)
unfolding hit_ok
hit_ok-IsSound ui c d s t host me ps here named click together sound handled =
    elim (Bool-cases (length ui.title_buffer == 0)) [
      | inl blank ↦ inl (ground (arith, blank))
      | inr titled ↦ elim (Option-cases (lookup ui.title_buffer c.channel.room_map)) [
        | inr (r, there) ↦ inl (ground (arith, titled, there))
        | inl free ↦
            let unknown = unknown_title s c ui.title_buffer together free in
            inr (
              ground (arith, titled, free),
              unknown,
              packet_parsing-IsSound me (create_room host ui.title_buffer ps) s t sound unknown
                  handled,
            )
      ]
    ]
