-- ===== src/Client/Columns/Knowing.antt =====
-- What RecvRoomList of Project/DXClient/ClientServer.cpp needs to know of the players of the rooms.
use network_omok.Base.{◌≡◌, ◌⊎◌, inl, inr, true, List, [], ◌∷◌, WString, text_eq}
use network_omok.Server.Login.{no_enter_player}
use network_omok.Client.{Client}
use network_omok.Client.Rooms.{RoomRow}
use network_omok.Client.Columns.Growing.{Grows, Knows, Owns, Knows-Grows, Owns-Grows}

-- The player that has entered a room is known, if there is one.
abbrev pub KnowsEnter : Client → WString → Type 0
KnowsEnter c enter = (text_eq enter no_enter_player ≡ true) ⊎ Knows c enter

-- The players of the rooms are known; and the hosts have scenes.
abbrev pub KnowsAll : Client → List RoomRow → Type 0
KnowsAll c [] = Unit {0}
KnowsAll c (r ∷ rows) = Knows c r.host × KnowsEnter c r.enter × KnowsAll c rows

abbrev pub OwnsAll : Client → List RoomRow → Type 0
OwnsAll c [] = Unit {0}
OwnsAll c (r ∷ rows) = Owns c r.host × KnowsEnter c r.enter × OwnsAll c rows

pub KnowsEnter-Grows :
    (c d : Client) (enter : WString) → Grows c d → KnowsEnter c enter → KnowsEnter d enter
KnowsEnter-Grows c d enter grows (inl nobody) = inl nobody
KnowsEnter-Grows c d enter grows (inr known) = inr (Knows-Grows c d enter grows known)

pub KnowsAll-Grows :
    (c d : Client) (rows : List RoomRow) → Grows c d → KnowsAll c rows → KnowsAll d rows
KnowsAll-Grows c d [] grows known = tt
KnowsAll-Grows c d (r ∷ rows) grows (host, enter, others) = (
  Knows-Grows c d r.host grows host,
  KnowsEnter-Grows c d r.enter grows enter,
  KnowsAll-Grows c d rows grows others,
)

pub OwnsAll-Grows :
    (c d : Client) (rows : List RoomRow) → Grows c d → OwnsAll c rows → OwnsAll d rows
OwnsAll-Grows c d [] grows known = tt
OwnsAll-Grows c d (r ∷ rows) grows (host, enter, others) = (
  Owns-Grows c d r.host grows host,
  KnowsEnter-Grows c d r.enter grows enter,
  OwnsAll-Grows c d rows grows others,
)
