-- ===== src/Net/Packet/Reading.antt =====
-- operator>> on a packet that has arrived.
use network_omok.Base.{
  ℕ, ◌+◌, ◌-◌, ◌*◌, ◌/◌, ◌<◌, ◌≡◌, refl, subst, some, List, [], ◌∷◌, ◌++◌, map, WString, length,
  length-append, sub16, arith,
}
use network_omok.Net.Packet.{
  Packet, number_bytes, wide_bytes, peek, get, wide_string, get_wstring, copy_to_packet_buffer,
  Item, number, wide, number_of, wide_text, get_item, get_items, packet_header_size,
  packet_buffer_size,
}
use network_omok.Net.Packet.Bytes.{
  Holds, Holds-ext, Holds-at, Holds-split, peek-Holds, length-number_bytes, capacity,
  bytes_number-number_bytes, length-wide_bytes, IsText, wide_string-Holds,
}
use network_omok.Net.Packet.Items.{IsItem, AllItems, item_bytes, items_bytes, kind_of}

-- A packet that is being read: the bytes are those from the read position on.
pub record IsReading (p : Packet) (bs : List ℕ) : Type 0 where
  pub no_write : p.write_pos ≡ 0
  pub ahead : p.read_pos + length bs < packet_buffer_size
  pub left : Holds p.data_field p.read_pos bs

get_number :
    (k n : ℕ) (rest : List ℕ) (p : Packet)
    → 0 < k
    → n < capacity k
    → IsReading p (number_bytes k n ++ rest)
    → (q : Packet) × (get_item (number_of k) p ≡ some (number k n, q)) × IsReading q rest
unfolding get_item get
get_number k n rest p pos small r =
    let total = length-append (number_bytes k n) rest in
    let size = length-number_bytes k n in
    let a = r.no_write in
    let b = r.ahead in
    let (here, after) = Holds-split p.data_field p.read_pos (number_bytes k n) rest r.left in
    let read : peek p.data_field p.read_pos k ≡ number_bytes k n =
      subst (λ m. peek p.data_field p.read_pos m ≡ number_bytes k n) size
        (peek-Holds p.data_field p.read_pos (number_bytes k n) here) in
    (
      record p { len = sub16 p.len k; read_pos = p.read_pos + k },
      ground (arith, read, bytes_number-number_bytes k n small),
      record {
        no_write = a;
        ahead = omega (arith, total, size);
        left =
            Holds-at p.data_field (p.read_pos + length (number_bytes k n)) (p.read_pos + k) rest
              (omega (arith, size)) after;
      },
    )

get_text :
    (us : WString) (rest : List ℕ) (p : Packet)
    → IsText us
    → IsReading p ((wide_bytes us ++ (0 ∷ 0 ∷ [])) ++ rest)
    → (q : Packet) × (get_item wide_text p ≡ some (wide us, q)) × IsReading q rest
unfolding get_item get_wstring
get_text us rest p t r =
    let total = length-append (wide_bytes us ++ (0 ∷ 0 ∷ [])) rest in
    let size = length-append (wide_bytes us) (0 ∷ 0 ∷ []) in
    let units = length-wide_bytes us in
    let a = r.no_write in
    let b = r.ahead in
    let (here, after) =
      Holds-split p.data_field p.read_pos (wide_bytes us ++ (0 ∷ 0 ∷ [])) rest r.left in
    let read : wide_string p.data_field p.read_pos ((packet_buffer_size - p.read_pos) / 2)
        ≡ some us =
      wide_string-Holds p.data_field p.read_pos _ us t here (omega (arith, total, size, units)) in
    (
      record p { read_pos = p.read_pos + (length us * 2 + 2) },
      ground (arith, read),
      record {
        no_write = a;
        ahead = omega (arith, total, size, units);
        left =
            Holds-at p.data_field (p.read_pos + length (wide_bytes us ++ (0 ∷ 0 ∷ [])))
              (p.read_pos + (length us * 2 + 2)) rest (omega (arith, size, units)) after;
      },
    )

pub get_item-IsReading :
    (i : Item) (rest : List ℕ) (p : Packet)
    → IsItem i
    → IsReading p (item_bytes i ++ rest)
    → (q : Packet) × (get_item (kind_of i) p ≡ some (i, q)) × IsReading q rest
get_item-IsReading (number k n) rest p ok r = get_number k n rest p ok.0 ok.1 r
get_item-IsReading (wide us) rest p ok r = get_text us rest p ok r

pub get_items-IsReading :
    (is : List Item) (p : Packet)
    → AllItems is
    → IsReading p (items_bytes is)
    → (q : Packet) × (get_items (map kind_of is) p ≡ some (is, q))
unfolding get_items
get_items-IsReading [] p ok r = (p, refl)
get_items-IsReading (i ∷ is) p ok r =
    let (q, e, s) = get_item-IsReading i (items_bytes is) p ok.0 r in
    let (t, f) = get_items-IsReading is q ok.1 s in (t, ground (arith, e, f))

pub copied-IsReading :
    (bs : List ℕ) (p q : Packet)
    → p.len ≡ packet_header_size + length bs
    → Holds p.data_field 0 bs
    → length bs < packet_buffer_size
    → IsReading (copy_to_packet_buffer p p.len q) bs
unfolding copy_to_packet_buffer
copied-IsReading bs p q counted held fits = record {
  no_write = refl;
  ahead = omega arith;
  left = Holds-ext p.data_field _ 0 bs (λ i below. ground arith) held;
}
