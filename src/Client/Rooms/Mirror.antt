-- ===== src/Client/Rooms/Mirror.antt =====
-- The rooms that a client shows against the rooms of the server: RoomManager.cpp and Room.h of
-- Project/DXServer, ChannelScene.cpp and RoomUI.cpp of Project/DXClient.
use network_omok.Base.{
  ℕ, ◌≡◌, refl, true, Option, none, some, [], ◌∷◌, WString, Assoc, if◌then◌else◌, text_eq, arith,
  Option-cases, Bool-cases, inl, inr, ◌∙◌, ap, sym, subst, lookup, erase, insert, adjust, add32,
  ltb, sub32, IsKeyed, lookup-erase, lookup-insert, lookup-adjust, erase-IsKeyed,
}
use network_omok.Server.{Room, Server}
use network_omok.Server.Rooms
use network_omok.Server.Rooms.{renumber, new_room, seat_enter, unseat_enter, change_host}
use network_omok.Client.{RoomUi, ChannelScene}
use network_omok.Client.Rooms.{count_text, location_of, set_room_index, close_gap, delete_room}

-- What a client shows of a room: its index, the number and the place of its row, and the text for
-- its players.
abbrev Face : Type 0
Face = ℕ × ℕ × ℕ × WString

abbrev pub face_of : Room → Face
face_of r =
    (r.room_index, add32 r.room_index 1, location_of r.room_index, count_text r.player_count)

abbrev pub shown_of : RoomUi → Face
shown_of u = (u.room_index, u.room_num, u.location, u.player_count)

abbrev pub faces : Option Room → Option Face
faces none = none
faces (some r) = some (face_of r)

abbrev pub shown : Option RoomUi → Option Face
shown none = none
shown (some u) = some (shown_of u)

-- Under every title the client shows what the server has there.
abbrev pub Mirrors : Assoc Room → Assoc RoomUi → Type 0
Mirrors rooms uis = (title : WString) → shown (lookup title uis) ≡ faces (lookup title rooms)

-- A face behind the removal of the room with index `i`.
abbrev closed : ℕ → Option Face → Option Face
closed i none = none
closed i (some (j, num, place, text)) =
    if ltb i j
    then some (sub32 j 1, add32 (sub32 j 1) 1, location_of (sub32 j 1), text)
    else some (j, num, place, text)

faces-renumber :
    (i : ℕ) (k : WString) (rooms : Assoc Room)
    → faces (lookup k (renumber i rooms)) ≡ closed i (faces (lookup k rooms))
unfolding lookup renumber
faces-renumber i k [] = refl
faces-renumber i k ((t, r) ∷ rooms) = ground (arith, faces-renumber i k rooms)

shown-close_gap :
    (i : ℕ) (k : WString) (uis : Assoc RoomUi)
    → shown (lookup k (close_gap i uis)) ≡ closed i (shown (lookup k uis))
unfolding lookup close_gap set_room_index
shown-close_gap i k [] = refl
shown-close_gap i k ((t, u) ∷ uis) = ground (arith, shown-close_gap i k uis)

faces-none : (o : Option Room) → faces o ≡ none → o ≡ none
faces-none none e = refl
faces-none (some r) e = absurd (ground arith)

shown-none : (o : Option RoomUi) → shown o ≡ none → o ≡ none
shown-none none e = refl
shown-none (some u) e = absurd (ground arith)

renumber-IsKeyed : (i : ℕ) (rooms : Assoc Room) → IsKeyed rooms → IsKeyed (renumber i rooms)
unfolding renumber
renumber-IsKeyed i [] d = tt
renumber-IsKeyed i ((t, r) ∷ rooms) d = (
  faces-none _ (faces-renumber i t rooms ∙ ap (λ o. closed i (faces o)) d.0),
  renumber-IsKeyed i rooms d.1,
)

close_gap-IsKeyed : (i : ℕ) (uis : Assoc RoomUi) → IsKeyed uis → IsKeyed (close_gap i uis)
unfolding close_gap
close_gap-IsKeyed i [] d = tt
close_gap-IsKeyed i ((t, r) ∷ uis) d = (
  shown-none _ (shown-close_gap i t uis ∙ ap (λ o. closed i (shown o)) d.0),
  close_gap-IsKeyed i uis d.1,
)

-- The tables behind a deletion on both sides.
erase-Mirrors :
    (rooms : Assoc Room) (uis : Assoc RoomUi) (title : WString) (i : ℕ)
    → IsKeyed rooms
    → IsKeyed uis
    → Mirrors rooms uis
    → Mirrors (erase title (renumber i rooms)) (erase title (close_gap i uis))
erase-Mirrors rooms uis title i keyed keyed' same k =
    let here = lookup-erase k title (renumber i rooms) (renumber-IsKeyed i rooms keyed) in
    let there = lookup-erase k title (close_gap i uis) (close_gap-IsKeyed i uis keyed') in
    elim (Bool-cases (text_eq title k)) [
      | inl gone ↦ ground (arith, gone, here, there)
      | inr stays ↦
          ground
            (arith, stays, here, there, shown-close_gap i k uis, faces-renumber i k rooms, same k)
    ]

index-same : (u : RoomUi) (r : Room) → shown (some u) ≡ faces (some r) → u.room_index ≡ r.room_index
index-same u r e = ground arith

-- When the server deletes a room, a client that shows its rooms and is told so finds the row and
-- deletes it, and shows the rooms of the server again: the same titles, the indices that the server
-- has given them, and rows that are numbered and placed by these.
pub delete_room-Mirrors :
    (s : Server) (cs : ChannelScene) (title : WString) (r : Room)
    → IsKeyed s.room_map
    → IsKeyed cs.room_map
    → Mirrors s.room_map cs.room_map
    → lookup title s.room_map ≡ some r
    → (t : Server) × (ds : ChannelScene) × (Rooms.delete_room title s ≡ some (true, t))
      × (delete_room title cs ≡ some ds)
      × Mirrors t.room_map ds.room_map
      × IsKeyed t.room_map
      × IsKeyed ds.room_map
unfolding delete_room
delete_room-Mirrors s cs title r keyed keyed' same there =
    elim (Option-cases (lookup title cs.room_map)) [
      | inl missing ↦ absurd (ground (arith, same title))
      | inr (u, found) ↦ (
        record s {
          room_map = erase title (renumber r.room_index s.room_map);
          room_count = sub32 s.room_count 1;
        },
        record cs { room_map = erase title (close_gap u.room_index cs.room_map) },
        ground (arith, there),
        ground (arith, found),
        subst
            (λ i.
              Mirrors (erase title (renumber i s.room_map))
                (erase title (close_gap u.room_index cs.room_map)))
            (index-same u r (ap shown (sym found) ∙ (same title ∙ ap faces there)))
            (erase-Mirrors s.room_map cs.room_map title u.room_index keyed keyed' same),
        erase-IsKeyed title _ (renumber-IsKeyed r.room_index s.room_map keyed),
        erase-IsKeyed title _ (close_gap-IsKeyed u.room_index cs.room_map keyed'),
      )
    ]

shown-face : (u : RoomUi) (r : Room) → shown (some u) ≡ faces (some r) → shown_of u ≡ face_of r
shown-face u r e = ground arith

-- A row under a new title on both sides.
pub insert-Mirrors :
    (rooms : Assoc Room) (uis : Assoc RoomUi) (title : WString) (r : Room) (u : RoomUi)
    → Mirrors rooms uis
    → lookup title rooms ≡ none
    → shown_of u ≡ face_of r
    → Mirrors (insert title r rooms) (insert title u uis)
insert-Mirrors rooms uis title r u same fresh face k =
    let here = lookup-insert k title r rooms fresh in
    let there = lookup-insert k title u uis (shown-none _ (same title ∙ ap faces fresh)) in
    elim (Bool-cases (text_eq title k)) [
      | inl it ↦ ground (arith, it, face, here, there)
      | inr other ↦ ground (arith, other, here, there, same k)
    ]

-- A change of the room and of the row under a title.
pub adjust-Mirrors :
    (rooms : Assoc Room) (uis : Assoc RoomUi) (title : WString) (r : Room) (f : Room → Room)
    (g : RoomUi → RoomUi)
    → Mirrors rooms uis
    → lookup title rooms ≡ some r
    → ((u : RoomUi) → shown_of u ≡ face_of r → shown_of (g u) ≡ face_of (f r))
    → Mirrors (adjust title f rooms) (adjust title g uis)
adjust-Mirrors rooms uis title r f g same there step k = elim (Option-cases (lookup title uis)) [
  | inl missing ↦ absurd (ground (arith, same title))
  | inr (u, found) ↦
      let face = step u (shown-face u r (ap shown (sym found) ∙ (same title ∙ ap faces there))) in
      let here = lookup-adjust k title f r rooms there in
      let here' = lookup-adjust k title g u uis found in
      elim (Bool-cases (text_eq title k)) [
        | inl it ↦ ground (arith, it, face, here, here')
        | inr other ↦ ground (arith, other, here, here', same k)
      ]
]
