-- ===== src/Server/Rooms/Index.antt =====
-- The room indices of RoomManager: with n rooms they are the n numbers below the count, and
-- DeleteRoom closes the gap that a room leaves.
use network_omok.Base.{
  ℕ, suc, ◌≤◌, ◌<◌, ◌≡◌, refl, ◌≢◌, true, Option, none, some, [], ◌∷◌, WString, Assoc,
  if◌then◌else◌, arith, length, lookup, insert, erase, adjust, ltb, u32_mod, text_eq_iff, sub32,
  add32, length-erase, length-adjust, ◌∙◌, zero,
}
use network_omok.Server.{Room, Server}
use network_omok.Server.Requests.{max_rooms}
use network_omok.Server.Rooms.{renumber, delete_room}

-- No room of the map has the index.
abbrev Free : ℕ → Assoc Room → Type 0
Free i [] = Unit {0}
Free i ((t, r) ∷ m) = (r.room_index ≢ i) × Free i m

-- The indices are distinct and below the bound.
abbrev Distinct : ℕ → Assoc Room → Type 0
Distinct n [] = Unit {0}
Distinct n ((t, r) ∷ m) = (r.room_index < n) × Free r.room_index m × Distinct n m

-- `n` rooms with `n` distinct indices below `n`, and no more than the server allows.
abbrev pub IsNumbered : Assoc Room → ℕ → Type 0
IsNumbered m n = (length m ≡ n) × Distinct n m × (n ≤ max_rooms)

Distinct-mono : (m n : ℕ) (rooms : Assoc Room) → m ≤ n → Distinct m rooms → Distinct n rooms
Distinct-mono m n [] h d = tt
Distinct-mono m n ((t, r) ∷ rooms) h d = (omega arith, d.1, Distinct-mono m n rooms h d.2)

Free-above : (n : ℕ) (rooms : Assoc Room) → Distinct n rooms → Free n rooms
Free-above n [] d = tt
Free-above n ((t, r) ∷ rooms) d = (omega arith, Free-above n rooms d.2)

Free-erase : (i : ℕ) (k : WString) (rooms : Assoc Room) → Free i rooms → Free i (erase k rooms)
unfolding erase
Free-erase i k [] f = tt
Free-erase i k ((t, r) ∷ rooms) f = ground (arith, Free-erase i k rooms f.1)

Distinct-erase :
    (n : ℕ) (k : WString) (rooms : Assoc Room) → Distinct n rooms → Distinct n (erase k rooms)
unfolding erase
Distinct-erase n k [] d = tt
Distinct-erase n k ((t, r) ∷ rooms) d =
    ground (arith, Distinct-erase n k rooms d.2, Free-erase r.room_index k rooms d.1)

Free-lookup :
    (i : ℕ) (k : WString) (r : Room) (rooms : Assoc Room)
    → Free i rooms
    → lookup k rooms ≡ some r
    → r.room_index ≢ i
unfolding lookup
Free-lookup i k r [] f e = absurd (ground arith)
Free-lookup i k r ((t, q) ∷ rooms) f e = ground (arith, Free-lookup i k r rooms f.1)

-- The room that a title finds is the one whose index becomes free.
Free-erase_found :
    (n : ℕ) (k : WString) (r : Room) (rooms : Assoc Room)
    → Distinct n rooms
    → lookup k rooms ≡ some r
    → Free r.room_index (erase k rooms) × (r.room_index < n)
unfolding erase lookup
Free-erase_found n k r [] d e = absurd (ground arith)
Free-erase_found n k r ((t, q) ∷ rooms) d e =
    ground (arith, Free-erase_found n k r rooms d.2, Free-lookup q.room_index k r rooms d.1)

pub erase-renumber :
    (i : ℕ) (k : WString) (rooms : Assoc Room)
    → erase k (renumber i rooms) ≡ renumber i (erase k rooms)
unfolding erase renumber
erase-renumber i k [] = refl
erase-renumber i k ((t, r) ∷ rooms) = ground (arith, erase-renumber i k rooms)

length-renumber : (i : ℕ) (rooms : Assoc Room) → length (renumber i rooms) ≡ length rooms
unfolding renumber
length-renumber i [] = refl
length-renumber i ((t, r) ∷ rooms) = omega (arith, length-renumber i rooms)

-- The index that a room has after the one with index `i` is gone.
abbrev closed_up : ℕ → ℕ → ℕ
closed_up i j = if ltb i j then sub32 j 1 else j

Free-renumber :
    (n i j : ℕ) (rooms : Assoc Room)
    → n < u32_mod
    → j < n
    → j ≢ i
    → Free i rooms
    → Free j rooms
    → Distinct n rooms
    → Free (closed_up i j) (renumber i rooms)
unfolding renumber
Free-renumber n i j [] w b ne fi fj d = tt
Free-renumber n i j ((t, r) ∷ rooms) w b ne fi fj d =
    (ground arith, Free-renumber n i j rooms w b ne fi.1 fj.1 d.2)

Distinct-renumber :
    (n i : ℕ) (rooms : Assoc Room)
    → suc n < u32_mod
    → i < suc n
    → Free i rooms
    → Distinct (suc n) rooms
    → Distinct n (renumber i rooms)
unfolding renumber
Distinct-renumber n i [] w b f d = tt
Distinct-renumber n i ((t, r) ∷ rooms) w b f d = (
  ground arith,
  ground (arith, Free-renumber (suc n) i r.room_index rooms w d.0 f.0 f.1 d.1 d.2),
  Distinct-renumber n i rooms w b f.1 d.2,
)

-- A room as DeleteRoom leaves it.
abbrev pub reindexed : ℕ → Option Room → Option Room
reindexed i none = none
reindexed i (some r) = some (record r { room_index = closed_up i r.room_index })

lookup-renumber :
    (i : ℕ) (k : WString) (rooms : Assoc Room)
    → lookup k (renumber i rooms) ≡ reindexed i (lookup k rooms)
unfolding lookup renumber
lookup-renumber i k [] = refl
lookup-renumber i k ((t, r) ∷ rooms) = ground (arith, lookup-renumber i k rooms)

lookup-erase_ne :
    (k j : WString) (rooms : Assoc Room) → k ≢ j → lookup j (erase k rooms) ≡ lookup j rooms
unfolding lookup erase
lookup-erase_ne k j [] ne = refl
lookup-erase_ne k j ((t, r) ∷ rooms) ne =
    ground (arith, text_eq_iff t k, text_eq_iff t j, lookup-erase_ne k j rooms ne)

pub erase-IsNumbered :
    (n : ℕ) (k : WString) (r : Room) (rooms : Assoc Room)
    → IsNumbered rooms n
    → lookup k rooms ≡ some r
    → IsNumbered (erase k (renumber r.room_index rooms)) (sub32 n 1)
erase-IsNumbered zero k r rooms v e = absurd (omega (arith, (Free-erase_found 0 k r rooms v.1 e).1))
erase-IsNumbered (suc n) k r rooms (len, d, w) e =
    let (free, below) = Free-erase_found (suc n) k r rooms d e in
    let e' : sub32 (suc n) 1 ≡ n = omega arith in
    rw (erase-renumber r.room_index k rooms, e')
      (
        omega (arith, length-renumber r.room_index (erase k rooms), length-erase k r rooms e),
        Distinct-renumber n r.room_index (erase k rooms) (omega arith) below free
            (Distinct-erase (suc n) k rooms d),
        omega arith,
      )

-- Deleting a room that is there succeeds, keeps the indices of the others the numbers below their
-- count, and changes nothing else of a room under another title than to move its index down by one
-- if it was above that of the deleted room.
pub delete_room-IsNumbered :
    (s : Server) (title : WString) (r : Room)
    → IsNumbered s.room_map s.room_count
    → lookup title s.room_map ≡ some r
    → (t : Server) × (delete_room title s ≡ some (true, t))
      × IsNumbered t.room_map t.room_count
      × ((other : WString)
          → title ≢ other
          → lookup other t.room_map ≡ reindexed r.room_index (lookup other s.room_map))
delete_room-IsNumbered s title r v e = (
  record s {
    room_map = erase title (renumber r.room_index s.room_map);
    room_count = sub32 s.room_count 1;
  },
  ground arith,
  erase-IsNumbered s.room_count title r s.room_map v e,
  λ other ne.
      lookup-erase_ne title other (renumber r.room_index s.room_map) ne
      ∙ lookup-renumber r.room_index other s.room_map,
)

-- The numbering under the other changes of the map.
pub adjust-IsNumbered :
    (n : ℕ) (k : WString) (f : Room → Room) (rooms : Assoc Room)
    → ((r : Room) → (f r).room_index ≡ r.room_index)
    → IsNumbered rooms n
    → IsNumbered (adjust k f rooms) n
unfolding adjust
adjust-IsNumbered n k f rooms same (len, d, w) =
    (length-adjust k f rooms ∙ len, Distinct-adjust rooms d, w)
  where
    Free-adjust : (i : ℕ) (m : Assoc Room) → Free i m → Free i (adjust k f m)
    Free-adjust i [] h = tt
    Free-adjust i ((t, r) ∷ m) h = ground (arith, Free-adjust i m h.1, same r)

    Distinct-adjust : (m : Assoc Room) → Distinct n m → Distinct n (adjust k f m)
    Distinct-adjust [] h = tt
    Distinct-adjust ((t, r) ∷ m) h =
        ground (arith, Distinct-adjust m h.2, Free-adjust r.room_index m h.1, same r)

pub insert-IsNumbered :
    (n : ℕ) (k : WString) (r : Room) (rooms : Assoc Room)
    → IsNumbered rooms n
    → lookup k rooms ≡ none
    → r.room_index ≡ n
    → n < max_rooms
    → IsNumbered (insert k r rooms) (add32 n 1)
unfolding insert
insert-IsNumbered n k r rooms (len, d, w) e index small =
    ground (arith, Distinct-mono n (suc n) rooms, Free-above n rooms d)
