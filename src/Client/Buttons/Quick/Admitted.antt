-- ===== src/Client/Buttons/Quick/Admitted.antt =====
-- The room that the quick start asks for, at the server.
use network_omok.Base.{
  ℕ, ◌≡◌, ◌∙◌, refl, sym, subst, ◌⊎◌, inl, inr, true, false, none, some, [], ◌∷◌, ◌++◌, WString,
  Assoc, ap, text_eq, text_eq_iff, text_eq_refl, lookup, insert, erase, adjust, IsKeyed, arith, leb,
  Bool-cases, Option-cases,
}
use network_omok.Protocol.{cs_requ_room_entry}
use network_omok.Server.{Address, Server, Message, text}
use network_omok.Server.Rooms.{entry_room}
use network_omok.Server.Rooms.Seats.{AllSeated, lookup-IsSeated}
use network_omok.Client.{RoomUi, ChannelScene, channel_scene, Client, my_name}
use network_omok.Client.Rooms.{
  new_room_ui, set_room_index, enter_player_in_room, create_room, close_gap, delete_room,
  one_of_two, count_text,
}
use network_omok.Client.Rooms.Mirror.{faces, shown}
use network_omok.Client.Rooms.Together.{
  AreTogether, starts, opens, enters, leaves, passes, closes, AreTogether-IsMirror,
}
use network_omok.Client.Buttons.{request_room_entry}
use network_omok.Client.Buttons.Quick.{can_enter, first_open, hit_quick_start}

-- Each row is under its own title.
abbrev AllTitled : Assoc RoomUi → Type 0
AllTitled [] = Unit {0}
AllTitled ((t, u) ∷ m) = (u.title ≡ t) × AllTitled m

insert-AllTitled :
    (t : WString) (u : RoomUi) (m : Assoc RoomUi)
    → u.title ≡ t
    → AllTitled m
    → AllTitled (insert t u m)
unfolding insert
insert-AllTitled t u m e h = ground arith

adjust-AllTitled :
    (t : WString) (g : RoomUi → RoomUi) (m : Assoc RoomUi)
    → ((u : RoomUi) → (g u).title ≡ u.title)
    → AllTitled m
    → AllTitled (adjust t g m)
unfolding adjust
adjust-AllTitled t g [] same h = tt
adjust-AllTitled t g ((k, u) ∷ m) same h = elim (Bool-cases (text_eq k t)) [
  | inl here ↦ rw here (same u ∙ h.0, h.1)
  | inr there ↦ rw there (h.0, adjust-AllTitled t g m same h.1)
]

erase-AllTitled : (t : WString) (m : Assoc RoomUi) → AllTitled m → AllTitled (erase t m)
unfolding erase
erase-AllTitled t [] h = tt
erase-AllTitled t ((k, u) ∷ m) h = elim (Bool-cases (text_eq k t)) [
  | inl here ↦ rw here h.1
  | inr there ↦ rw there (h.0, erase-AllTitled t m h.1)
]

close_gap-AllTitled : (i : ℕ) (m : Assoc RoomUi) → AllTitled m → AllTitled (close_gap i m)
unfolding close_gap set_room_index
close_gap-AllTitled i [] h = tt
close_gap-AllTitled i ((k, u) ∷ m) h = (ground (arith, h.0), close_gap-AllTitled i m h.1)

delete_room-AllTitled :
    (t : WString) (cs ds : ChannelScene)
    → delete_room t cs ≡ some ds
    → AllTitled cs.room_map
    → AllTitled ds.room_map
unfolding delete_room
delete_room-AllTitled t cs ds e h = elim (Option-cases (lookup t cs.room_map)) [
  | inl free ↦ absurd (ground (arith, free, e))
  | inr (r, there) ↦
      let same : ds.room_map ≡ erase t (close_gap r.room_index cs.room_map) =
        ground (arith, there, e) in
      subst AllTitled (sym same) (
        erase-AllTitled t (close_gap r.room_index cs.room_map)
          (close_gap-AllTitled r.room_index cs.room_map h))
]

AreTogether-AllTitled : (s : Server) (cs : ChannelScene) → AreTogether s cs → AllTitled cs.room_map
unfolding create_room new_room_ui enter_player_in_room
AreTogether-AllTitled _ _ (starts s cs none_here none_there) = subst AllTitled (sym none_there) tt
AreTogether-AllTitled _ _ (opens s cs title ps name index host run fresh) =
    insert-AllTitled title _ cs.room_map refl (AreTogether-AllTitled s cs run)
AreTogether-AllTitled _ _ (enters s cs title r player run there one) =
    adjust-AllTitled title _ cs.room_map (λ u. refl) (AreTogether-AllTitled s cs run)
AreTogether-AllTitled _ _ (leaves s cs title r run there two) =
    adjust-AllTitled title _ cs.room_map (λ u. refl) (AreTogether-AllTitled s cs run)
AreTogether-AllTitled _ _ (passes s cs title name r host run there two) =
    adjust-AllTitled title _ cs.room_map (λ u. refl) (AreTogether-AllTitled s cs run)
AreTogether-AllTitled _ _ (closes s t cs ds title r run there gone gone') =
    delete_room-AllTitled title cs ds gone' (AreTogether-AllTitled s cs run)

-- The row that is found stands under its title, and has a free place.
first_open-some :
    (u : RoomUi) (m : Assoc RoomUi)
    → AllTitled m
    → IsKeyed m
    → first_open m ≡ some u
    → (lookup u.title m ≡ some u) × (can_enter u ≡ true)
unfolding first_open lookup
first_open-some u [] h d e = absurd (ground (arith, e))
first_open-some u ((t, v) ∷ m) h d e = elim (Bool-cases (can_enter v)) [
  | inl free ↦
      let same : v ≡ u = ground (arith, free, e) in
      subst (λ w. (lookup w.title ((t, v) ∷ m) ≡ some w) × (can_enter w ≡ true)) same
        (ground (arith, h.0, text_eq_refl t), free)
  | inr full ↦
      let (there, free) = first_open-some u m h.1 d.1 (ground (arith, full, e)) in
      (
        elim (Bool-cases (text_eq t u.title)) [
          | inl same ↦
              let title = (text_eq_iff t u.title).0 same in
              absurd (ground (arith, subst (λ k. lookup k m ≡ none) title d.0, there))
          | inr other ↦ ground (arith, other, there)
        ],
        free,
      )
]

-- No room has a free place.
first_open-none :
    (m : Assoc RoomUi)
    → first_open m ≡ none
    → (title : WString) (u : RoomUi) → lookup title m ≡ some u
    → can_enter u ≡ false
unfolding first_open lookup
first_open-none [] e title u there = absurd (ground (arith, there))
first_open-none ((t, v) ∷ m) e title u there = elim (Bool-cases (can_enter v)) [
  | inl free ↦ absurd (ground (arith, free, e))
  | inr full ↦ ground (arith, full, there, first_open-none m (ground (arith, full, e)) title u)
]

-- A text "1 / 2" is that of a count of at most 1.
few_players : (n : ℕ) → text_eq (count_text n) one_of_two ≡ true → leb n 1 ≡ true
unfolding text_eq
few_players n e = ground (arith, e)

-- A room with a free place admits a player that the server knows.
admits :
    (s : Server) (u : RoomUi) (me : WString) (a : Address) (title : WString)
    → AllSeated s.room_map
    → shown (some u) ≡ faces (lookup title s.room_map)
    → can_enter u ≡ true
    → lookup me s.player_map ≡ some a
    → entry_room title me s ≡ some (true, s)
admits s u me a title seats mirror free known = elim (Option-cases (lookup title s.room_map)) [
  | inl closed ↦ absurd (ground (arith, mirror, closed))
  | inr (r, there) ↦
      let seated = lookup-IsSeated title r s.room_map seats there in
      let text : u.player_count ≡ count_text r.player_count = ground (arith, mirror, there) in
      let few = few_players r.player_count (subst (λ t. text_eq t one_of_two ≡ true) text free) in
      elim (Option-cases r.enter_player) [
        | inl empty ↦ ground (arith, there, empty, known)
        | inr (b, taken) ↦ absurd (ground (arith, taken, few, seated.1))
      ]
]

-- RoomUI::RequestRoomEntry
abbrev pub entry_request : WString → WString → Message
entry_request title me = record {
  protocol = cs_requ_room_entry;
  fields = text title ∷ text me ∷ [];
}

-- A click on the quick start in the channel, when the client shows the rooms of the server, whose
-- seats are right, and the server knows the client's player: either no row says "1 / 2", and nothing
-- is sent, or the client asks for one room, and the server, asked now, admits the player to it.
pub hit_quick_start-Admitted :
    (s : Server) (c : Client) (me : WString) (a : Address)
    → c.scene ≡ channel_scene
    → my_name c ≡ some (me, c)
    → AreTogether s c.channel
    → AllSeated s.room_map
    → lookup me s.player_map ≡ some a
    → (d : Client) × (hit_quick_start c ≡ some (tt, d))
      × ((d ≡ c)
            × ((title : WString) (u : RoomUi)
                → lookup title c.channel.room_map ≡ some u
                → can_enter u ≡ false)
          ⊎ ((title : WString) × (d ≡ record c { sent = c.sent ++ (entry_request title me ∷ []) })
              × (entry_room title me s ≡ some (true, s))))
unfolding hit_quick_start request_room_entry
hit_quick_start-Admitted s c me a here named together seats known =
    elim (Option-cases (first_open c.channel.room_map)) [
      | inl none_open ↦ (
        c,
        ground (arith, here, none_open),
        inl (refl, first_open-none c.channel.room_map none_open),
      )
      | inr (u, found) ↦
          let mirror = AreTogether-IsMirror s c.channel together in
          let (there, free) =
            first_open-some u c.channel.room_map (AreTogether-AllTitled s c.channel together)
              mirror.keyed' found in
          (
            record c { sent = c.sent ++ (entry_request u.title me ∷ []) },
            ground (arith, here, found, named),
            inr (
              u.title,
              refl,
              admits s u me a u.title seats (ap shown (sym there) ∙ mirror.same u.title) free known,
            ),
          )
    ]
