-- ===== src/Net/Packet.antt =====
-- Project/NetLib/Packet.cpp and Packet.h (Project/CoreNetClientLib/Packet.cpp is the same code). A
-- position is the distance of the pointer from m_pBeginPos, the start of m_dataField. A write or a
-- read outside of m_dataField, and a CopyMemory of overlapping bytes, are undefined: `none`.
pub mod Bytes
pub mod Framing
pub mod Items
pub mod Reading
pub mod RoundTrip
pub mod Writing
use network_omok.Base.{
  ℕ, zero, suc, ◌+◌, ◌-◌, ◌*◌, ◌/◌, ◌%◌, Bool, true, false, ◌&&◌, Option, none, some, List, [], ◌∷◌,
  ◌++◌, WString, add16, sub16, ltb, leb, ◌==◌, if◌then◌else◌, length,
}

abbrev pub packet_buffer_size : ℕ
packet_buffer_size = 2048

abbrev pub packet_header_size : ℕ
packet_header_size = 4

pub record Packet : Type 0 where
  pub len : ℕ
  pub type : ℕ
  pub data_field : ℕ → ℕ
  pub read_pos : ℕ
  pub write_pos : ℕ

-- Packet(type)
abbrev pub new_packet : ℕ → Packet
new_packet type = record {
  len = packet_header_size;
  type = type;
  data_field = λ i. 0;
  read_pos = 0;
  write_pos = 0;
}

-- The bytes of a number, the lowest first, and the number of some bytes.
unfoldable pub number_bytes : ℕ → ℕ → List ℕ
number_bytes zero n = []
number_bytes (suc k) n = n % 256 ∷ number_bytes k (n / 256)

pub bytes_number : List ℕ → ℕ
bytes_number [] = 0
bytes_number (b ∷ bs) = b + 256 * bytes_number bs

-- The bytes of wchar_t units.
unfoldable pub wide_bytes : WString → List ℕ
wide_bytes [] = []
wide_bytes (u ∷ us) = u % 256 ∷ u / 256 ∷ wide_bytes us

-- CopyMemory into the data at a position, and out of it.
unfoldable pub poke : (ℕ → ℕ) → ℕ → List ℕ → ℕ → ℕ
poke memory at [] = memory
poke memory at (b ∷ bs) = poke (λ i. if at == i then b else memory i) (suc at) bs

unfoldable pub peek : (ℕ → ℕ) → ℕ → ℕ → List ℕ
peek memory at zero = []
peek memory at (suc n) = memory at ∷ peek memory (suc at) n

-- Whether two ranges of n bytes overlap.
abbrev overlap : ℕ → ℕ → ℕ → Bool
overlap a b n = ltb a (b + n) && ltb b (a + n)

-- The branch of Add and AddWString for a packet that is full: the header, then what has not been
-- read, at the front of the data.
compact : Packet → Option Packet
unfolding poke peek number_bytes
compact p =
    let read_len = p.write_pos - p.read_pos in
    let headed = poke p.data_field 0 (number_bytes 2 p.len ++ number_bytes 2 p.type) in
    let moved : Packet = record p {
      data_field = poke headed packet_header_size (peek headed p.read_pos read_len);
      read_pos = packet_header_size;
      write_pos = packet_header_size + read_len;
    } in
    if overlap p.read_pos packet_header_size read_len
    then none
    else (if leb (packet_header_size + read_len) packet_buffer_size then some moved else none)

-- CopyMemory(m_pWritePos, …) and the step behind it.
pub append_bytes : List ℕ → Packet → Option Packet
unfolding poke
append_bytes bs p =
    if leb (p.write_pos + length bs) packet_buffer_size
    then some (record p {
      data_field = poke p.data_field p.write_pos bs;
      write_pos = p.write_pos + length bs;
    })
    else none

-- `m_len += size`, and the test of Add and AddWString with its branch.
pub make_room : ℕ → Packet → Option Packet
unfolding compact
make_room size p =
    let counted : Packet = record p { len = add16 p.len size } in
    if ltb (packet_buffer_size - 1) (p.write_pos + size) then compact counted else some counted

-- Packet::Add
pub add : List ℕ → Packet → Option Packet
unfolding make_room append_bytes
add bs p = elim (make_room (length bs) p) [ none ↦ none | some q ↦ append_bytes bs q ]

-- The end of AddWString: the terminating zero, which the test has not counted.
pub terminate : Packet → Option Packet
unfolding append_bytes
terminate p = elim (append_bytes (0 ∷ 0 ∷ []) p) [
  | none ↦ none
  | some q ↦ some (record q { len = add16 q.len 2 })
]

-- Packet::AddWString with the size of `operator<<(std::wstring)`.
pub add_wstring : WString → Packet → Option Packet
unfolding make_room append_bytes terminate wide_bytes
add_wstring us p = elim (add (wide_bytes us) p) [ none ↦ none | some q ↦ terminate q ]

-- `m_pReadPos == m_pWritePos` after a read.
abbrev pub rewound : Packet → Packet
rewound p = if p.read_pos == p.write_pos then record p { read_pos = 0; write_pos = 0 } else p

-- Packet::Get
pub get : ℕ → Packet → Option (List ℕ × Packet)
unfolding peek
get size p =
    if leb (p.read_pos + size) packet_buffer_size
    then some (
      peek p.data_field p.read_pos size,
      rewound (record p { len = sub16 p.len size; read_pos = p.read_pos + size }),
    )
    else none

-- The wide string at a position, up to its zero; `none` when there is none in the data.
pub wide_string : (ℕ → ℕ) → ℕ → ℕ → Option WString
wide_string memory at zero = none
wide_string memory at (suc n) =
    let u = memory at + 256 * memory (suc at) in
    let rest = wide_string memory (suc (suc at)) n in
    if u == 0 then some [] else elim rest [ none ↦ none | some us ↦ some (u ∷ us) ]

-- Packet::GetWString, which appends to the string that it gets and steps over the length of both.
pub get_wstring : WString → Packet → Option (WString × Packet)
unfolding wide_string
get_wstring before p =
    elim (wide_string p.data_field p.read_pos ((packet_buffer_size - p.read_pos) / 2)) [
      | none ↦ none
      | some us ↦ some (
        before ++ us,
        rewound (record p { read_pos = p.read_pos + (length (before ++ us) * 2 + 2) }),
      )
    ]

-- Packet::CopyToPacketBuffer for the bytes of a packet `p`, of which `size` have arrived.
pub copy_to_packet_buffer : Packet → ℕ → Packet → Packet
copy_to_packet_buffer p size q = record {
  len = p.len;
  type = p.type;
  data_field = λ i. if ltb (i + packet_header_size) size then p.data_field i else q.data_field i;
  read_pos = 0;
  write_pos = 0;
}

-- What the operators << put into a packet: a number of 1 (BYTE), 2 (int16), 4 (int32, uInt32, the
-- bits of a float) or 8 (int64) bytes, or a wide string.
pub data Item : Type 0 where
  number : ℕ → ℕ → Item
  wide : WString → Item

-- What the operators >> ask for.
pub data Kind : Type 0 where
  number_of : ℕ → Kind
  wide_text : Kind

-- operator<<
pub put_item : Item → Packet → Option Packet
unfolding add add_wstring number_bytes
put_item (number k n) p = add (number_bytes k n) p
put_item (wide us) p = add_wstring us p

-- operator>>, into a fresh variable.
pub get_item : Kind → Packet → Option (Item × Packet)
unfolding get get_wstring bytes_number
get_item (number_of k) p = elim (get k p) [
  | none ↦ none
  | some (bs, q) ↦ some (number k (bytes_number bs), q)
]
get_item wide_text p = elim (get_wstring [] p) [ none ↦ none | some (us, q) ↦ some (wide us, q) ]

-- A chain of << and one of >>.
pub put_items : List Item → Packet → Option Packet
unfolding put_item
put_items [] p = some p
put_items (i ∷ is) p = elim (put_item i p) [ none ↦ none | some q ↦ put_items is q ]

pub get_items : List Kind → Packet → Option (List Item × Packet)
unfolding get_item
get_items [] p = some ([], p)
get_items (k ∷ ks) p = elim (get_item k p) [
  | none ↦ none
  | some (i, q) ↦ elim (get_items ks q) [ none ↦ none | some (is, r) ↦ some (i ∷ is, r) ]
]
