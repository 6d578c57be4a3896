-- ===== src/Client/Columns.antt =====
-- Project/DXClient/ClientServer.cpp: the loops of RecvRoomList that read the columns of its packet.
pub mod Listed
pub mod Growing
pub mod Knowing
pub mod Walks
use network_omok.Base.{
  ℕ, zero, suc, Bool, true, false, not, Option, none, some, List, [], ◌∷◌, WString, ◌==◌,
}
use network_omok.Server.{Field, text, uint32}
use network_omok.Client.Rooms.{RoomRow}

pub take_texts : ℕ → List Field → Option (List WString × List Field)
take_texts zero fs = some ([], fs)
take_texts (suc n) (text t ∷ fs) = elim (take_texts n fs) [
  | none ↦ none
  | some (ts, rest) ↦ some (t ∷ ts, rest)
]
take_texts (suc n) _ = none

pub take_numbers : ℕ → List Field → Option (List ℕ × List Field)
take_numbers zero fs = some ([], fs)
take_numbers (suc n) (uint32 k ∷ fs) = elim (take_numbers n fs) [
  | none ↦ none
  | some (ks, rest) ↦ some (k ∷ ks, rest)
]
take_numbers (suc n) _ = none

-- The rows of columns of the same length. A number becomes a `bool` at CreateRoom.
unfoldable pub as_rows :
    List WString → List WString → List ℕ → List ℕ → List ℕ → List WString → List RoomRow
as_rows (t ∷ ts) (h ∷ hs) (i ∷ is) (c ∷ cs) (p ∷ ps) (e ∷ es) =
    record { host = h; title = t; index = i; players = c; playing = not (p == 0); enter = e }
    ∷ as_rows ts hs is cs ps es
as_rows _ _ _ _ _ _ = []

-- Titles, hosts, indices, numbers of players, states and the players that have entered.
unfoldable pub read_rows : ℕ → List Field → Option (List RoomRow)
unfolding take_texts take_numbers as_rows
read_rows n fs = elim (take_texts n fs) [
  | none ↦ none
  | some (ts, f1) ↦ elim (take_texts n f1) [
    | none ↦ none
    | some (hs, f2) ↦ elim (take_numbers n f2) [
      | none ↦ none
      | some (is, f3) ↦ elim (take_numbers n f3) [
        | none ↦ none
        | some (cs, f4) ↦ elim (take_numbers n f4) [
          | none ↦ none
          | some (ps, f5) ↦ elim (take_texts n f5) [
            | none ↦ none
            | some (es, _) ↦ some (as_rows ts hs is cs ps es)
          ]
        ]
      ]
    ]
  ]
]
