-- ===== src/Client/Columns/Listed.antt =====
-- The list of the rooms from the server to a client: SendRoomList of Project/DXServer/User.cpp,
-- RecvRoomList and CreateRoomUIs of Project/DXClient.
use network_omok.Base.{
  ℕ, ◌≡◌, refl, not, none, some, List, [], ◌∷◌, ◌++◌, map, append-nil, WString, Assoc, length,
  arith, ◌==◌, if◌then◌else◌, lookup, insert, text_eq, IsKeyed, Option-cases, Bool-cases, inl, inr,
  ◌∙◌, ap, sym, subst, text_eq_iff, lookup-insert,
}
use network_omok.Server.{Room, Field, text, uint32}
use network_omok.Server.Login.{room_columns, flag}
use network_omok.Client.{RoomUi, ChannelScene}
use network_omok.Client.Rooms.{RoomRow, create_room, create_room_uis, new_room_ui}
use network_omok.Client.Rooms.Mirror.{Mirrors, shown, faces}
use network_omok.Client.Columns.{take_texts, take_numbers, as_rows, read_rows}

module _ (rest : List Field) where
  take_texts-map :
      (ts : List WString) → take_texts (length ts) (map text ts ++ rest) ≡ some (ts, rest)
  unfolding take_texts
  take_texts-map [] = refl
  take_texts-map (t ∷ ts) = ground (arith, take_texts-map ts)

  take_texts-column :
      {A : Type 0} (f : A → WString) (xs : List A)
      → take_texts (length xs) (map (λ x. text (f x)) xs ++ rest) ≡ some (map f xs, rest)
  unfolding take_texts
  take_texts-column f [] = refl
  take_texts-column f (x ∷ xs) = ground (arith, take_texts-column f xs)

  take_numbers-column :
      {A : Type 0} (f : A → ℕ) (xs : List A)
      → take_numbers (length xs) (map (λ x. uint32 (f x)) xs ++ rest) ≡ some (map f xs, rest)
  unfolding take_numbers
  take_numbers-column f [] = refl
  take_numbers-column f (x ∷ xs) = ground (arith, take_numbers-column f xs)

-- The rows that the columns stand for.
abbrev pub listed_rows : Assoc Room → List WString → List WString → List RoomRow
listed_rows rooms hosts enters =
    as_rows (map (λ e. e.1.room_title_name) rooms) hosts (map (λ e. e.1.room_index) rooms)
      (map (λ e. e.1.player_count) rooms) (map (λ e. flag e.1.is_play_game) rooms) enters

pub read_rows-columns :
    (rooms : Assoc Room) (hosts enters : List WString)
    → length hosts ≡ length rooms
    → length enters ≡ length rooms
    → read_rows (length rooms) (room_columns rooms hosts enters)
      ≡ some (listed_rows rooms hosts enters)
unfolding read_rows
read_rows-columns rooms hosts enters hosts_are enters_are =
    let states = map (λ e. uint32 (flag e.1.is_play_game)) rooms ++ map text enters in
    let counts = map (λ e. uint32 e.1.player_count) rooms ++ states in
    let indices = map (λ e. uint32 e.1.room_index) rooms ++ counts in
    let f1 = take_texts-column (map text hosts ++ indices) (λ e. e.1.room_title_name) rooms in
    let f2 =
      subst (λ n. take_texts n (map text hosts ++ indices) ≡ some (hosts, indices)) hosts_are
        (take_texts-map indices hosts) in
    let f3 = take_numbers-column counts (λ e. e.1.room_index) rooms in
    let f4 = take_numbers-column states (λ e. e.1.player_count) rooms in
    let f5 = take_numbers-column (map text enters) (λ e. flag e.1.is_play_game) rooms in
    let f6 =
      subst (λ n. take_texts n (map text enters) ≡ some (enters, [])) enters_are
        (subst (λ fs. take_texts (length enters) fs ≡ some (enters, []))
          (append-nil (map text enters)) (take_texts-map [] enters)) in
    ground (arith, f1, f2, f3, f4, f5, f6)

-- Each room stands under its own title.
abbrev pub IsTitled : Assoc Room → Type 0
IsTitled [] = Unit {0}
IsTitled ((t, r) ∷ rooms) = (r.room_title_name ≡ t) × IsTitled rooms

-- None of the titles has a row yet.
abbrev AreFresh : Assoc Room → Assoc RoomUi → Type 0
AreFresh [] uis = Unit {0}
AreFresh ((t, r) ∷ rooms) uis = (lookup t uis ≡ none) × AreFresh rooms uis

lookup-insert_kept :
    (j k : WString) (w u : RoomUi) (uis : Assoc RoomUi)
    → lookup j uis ≡ some u
    → lookup j (insert k w uis) ≡ some u
unfolding lookup insert
lookup-insert_kept j k w u uis there = elim (Option-cases (lookup k uis)) [
  | inl fresh ↦ elim (Bool-cases (text_eq k j)) [
    | inl it ↦ absurd (ground (arith, fresh, there, (text_eq_iff k j).0 it))
    | inr other ↦ ground (arith, fresh, other, there)
  ]
  | inr (v, taken) ↦ ground (arith, taken, there)
]

AreFresh-insert :
    (k : WString) (u : RoomUi) (rooms : Assoc Room) (uis : Assoc RoomUi)
    → lookup k rooms ≡ none
    → lookup k uis ≡ none
    → AreFresh rooms uis
    → AreFresh rooms (insert k u uis)
unfolding lookup
AreFresh-insert k u [] uis absent new fresh = tt
AreFresh-insert k u ((t, r) ∷ rooms) uis absent new fresh = (
  ground (arith, lookup-insert t k u uis new, text_eq_iff t k, text_eq_iff k t),
  AreFresh-insert k u rooms uis (ground arith) new fresh.1,
)

kept_row :
    (rows : List RoomRow) (k : WString) (u : RoomUi) (cs : ChannelScene)
    → lookup k cs.room_map ≡ some u
    → lookup k (create_room_uis rows cs).room_map ≡ some u
unfolding create_room_uis create_room
kept_row [] k u cs there = there
kept_row (r ∷ rows) k u cs there =
    kept_row rows k u (create_room r.host r.title r.index r.players r.playing cs)
      (lookup-insert_kept k r.title _ u cs.room_map there)

listed_shown :
    (rooms : Assoc Room) (hosts enters : List WString) (cs : ChannelScene)
    → length hosts ≡ length rooms
    → length enters ≡ length rooms
    → IsKeyed rooms
    → IsTitled rooms
    → AreFresh rooms cs.room_map
    → (k : WString) → lookup k cs.room_map ≡ none
    → shown (lookup k (create_room_uis (listed_rows rooms hosts enters) cs).room_map)
      ≡ faces (lookup k rooms)
unfolding create_room_uis create_room as_rows lookup new_room_ui
listed_shown [] [] [] cs l1 l2 keyed titled fresh k none_yet = ap shown none_yet
listed_shown [] (h ∷ hosts) enters cs l1 l2 keyed titled fresh k none_yet = absurd (omega arith)
listed_shown [] [] (e ∷ enters) cs l1 l2 keyed titled fresh k none_yet = absurd (omega arith)
listed_shown (r ∷ rooms) [] enters cs l1 l2 keyed titled fresh k none_yet = absurd (omega arith)
listed_shown (r ∷ rooms) (h ∷ hosts) [] cs l1 l2 keyed titled fresh k none_yet =
    absurd (omega arith)
listed_shown ((t, r) ∷ rooms) (h ∷ hosts) (e ∷ enters) cs l1 l2 keyed titled fresh k none_yet =
    let u : RoomUi =
      new_room_ui cs.obj_count h r.room_title_name r.room_index r.player_count
        (not (flag r.is_play_game == 0)) in
    let ds : ChannelScene =
      create_room h r.room_title_name r.room_index r.player_count (not (flag r.is_play_game == 0))
        cs in
    let free : lookup r.room_title_name cs.room_map ≡ none =
      subst (λ z. lookup z cs.room_map ≡ none) (sym titled.0) fresh.0 in
    let same : text_eq r.room_title_name k ≡ text_eq t k = ap (λ z. text_eq z k) titled.0 in
    let added = lookup-insert k r.room_title_name u cs.room_map free in
    let rows = listed_rows rooms hosts enters in
    elim (Bool-cases (text_eq t k)) [
      | inl it ↦
          let here : lookup k ds.room_map ≡ some u = ground (arith, added, same, it) in
          ap shown (kept_row rows k u ds here)
          ∙ ap (λ b. faces (if b then some r else lookup k rooms)) (sym it)
      | inr other ↦
          let still : lookup k ds.room_map ≡ none = ground (arith, added, same, other, none_yet) in
          let absent : lookup r.room_title_name rooms ≡ none =
            subst (λ z. lookup z rooms ≡ none) (sym titled.0) keyed.0 in
          listed_shown rooms hosts enters ds (omega arith) (omega arith) keyed.1 titled.1
            (AreFresh-insert r.room_title_name u rooms cs.room_map absent free fresh.1) k still
          ∙ ap (λ b. faces (if b then some r else lookup k rooms)) (sym other)
    ]

all_fresh : (rooms : Assoc Room) → AreFresh rooms []
unfolding lookup
all_fresh [] = tt
all_fresh ((t, r) ∷ rooms) = (refl, all_fresh rooms)

-- A client without rooms that makes its rows of such columns shows the rooms of the server, if each
-- stands there under its own title.
pub listed-Mirrors :
    (rooms : Assoc Room) (hosts enters : List WString) (cs : ChannelScene)
    → length hosts ≡ length rooms
    → length enters ≡ length rooms
    → IsKeyed rooms
    → IsTitled rooms
    → cs.room_map ≡ []
    → Mirrors rooms (create_room_uis (listed_rows rooms hosts enters) cs).room_map
unfolding lookup
listed-Mirrors rooms hosts enters cs hosts_are enters_are keyed titled none_yet k =
    listed_shown rooms hosts enters cs hosts_are enters_are keyed titled
      (subst (AreFresh rooms) (sym none_yet) (all_fresh rooms)) k (ap (lookup k) none_yet)
