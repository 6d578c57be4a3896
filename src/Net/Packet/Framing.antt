-- ===== src/Net/Packet/Framing.antt =====
-- The bytes of a packet on their way: from operator<< to the copy that the server reads.
use network_omok.Base.{
  ℕ, suc, ◌+◌, ◌*◌, ◌-◌, ◌<◌, ◌≤◌, ◌≡◌, ◌∙◌, refl, ap, some, List, [], ◌∷◌, ◌++◌, WString, length,
  length-append, arith, Option-cases, inl, inr,
}
use network_omok.Net.Packet.{
  Packet, new_packet, number_bytes, wide_bytes, peek, make_room, compact, append_bytes,
  copy_to_packet_buffer, Item, number, wide, put_item, put_items, add, add_wstring, terminate,
  packet_header_size, packet_buffer_size,
}
use network_omok.Net.Packet.Bytes.{Holds, peek-Holds}
use network_omok.Net.Packet.Items.{items_bytes}
use network_omok.Net.Packet.Writing.{IsWritten, put_items-IsWritten}
use network_omok.Net.Packet.Reading.{IsReading}
use network_omok.Net.Receive.Frames.{IsFrame}

-- The memory at a position, read as a DEFAULT_PACKET.
abbrev pub packet_at : (ℕ → ℕ) → ℕ → Packet
packet_at memory at = record {
  len = memory at + 256 * memory (suc at);
  type = memory (suc (suc at)) + 256 * memory (suc (suc (suc at)));
  data_field = λ i. memory (suc (suc (suc (suc at))) + i);
  read_pos = 0;
  write_pos = 0;
}

-- The header of a packet and its data.
abbrev pub frame : ℕ → List ℕ → List ℕ
frame type bs = number_bytes 2 (packet_header_size + length bs) ++ (number_bytes 2 type ++ bs)

pub length-frame :
    (type : ℕ) (bs : List ℕ) → length (frame type bs) ≡ packet_header_size + length bs
unfolding number_bytes
length-frame type bs = omega arith

pub frame-IsFrame :
    (type : ℕ) (bs : List ℕ) → length bs < packet_buffer_size → IsFrame (frame type bs)
unfolding number_bytes
frame-IsFrame type bs fits = (omega arith, omega arith)

Holds-moved :
    (m n : ℕ → ℕ) (at to : ℕ) (bs : List ℕ)
    → ((i : ℕ) → i < length bs → n (to + i) ≡ m (at + i))
    → Holds m at bs
    → Holds n to bs
Holds-moved m n at to [] same h = tt
Holds-moved m n at to (b ∷ bs) same h = (
  ap n (omega arith) ∙ (same 0 (omega arith) ∙ (ap m (omega arith) ∙ h.0)),
  Holds-moved m n (suc at) (suc to) bs
      (λ i below. ap n (omega arith) ∙ (same (suc i) (omega arith) ∙ ap m (omega arith))) h.1,
)

-- The copy of a packet that lies in the receive buffer, of which at least all bytes have come.
pub copied-frame :
    (type : ℕ) (bs : List ℕ) (memory : ℕ → ℕ) (at size : ℕ) (q : Packet)
    → type < 65536
    → length bs < packet_buffer_size
    → packet_header_size + length bs ≤ size
    → Holds memory at (frame type bs)
    → IsReading (copy_to_packet_buffer (packet_at memory at) size q) bs
      × ((copy_to_packet_buffer (packet_at memory at) size q).type ≡ type)
unfolding copy_to_packet_buffer number_bytes
copied-frame type bs memory at size q small fits come h =
    let rest = h.1.1.1.1 in
    (
      record {
        no_write = refl;
        ahead = omega arith;
        left = Holds-moved memory _ (suc (suc (suc (suc at)))) 0 bs (λ i below. ground arith) rest;
      },
      omega arith,
    )

-- The operators << leave the protocol number.
add-type : (bs : List ℕ) (p q : Packet) → add bs p ≡ some q → q.type ≡ p.type
unfolding add make_room compact append_bytes
add-type bs p q e = ground arith

terminate-type : (p q : Packet) → terminate p ≡ some q → q.type ≡ p.type
unfolding terminate append_bytes
terminate-type p q e = ground arith

add_wstring-type : (us : WString) (p q : Packet) → add_wstring us p ≡ some q → q.type ≡ p.type
unfolding add_wstring
add_wstring-type us p q e = elim (Option-cases (add (wide_bytes us) p)) [
  | inl full ↦ absurd (ground (arith, full))
  | inr (r, went) ↦ terminate-type r q (ground (arith, went)) ∙ add-type (wide_bytes us) p r went
]

put_item-type : (i : Item) (p q : Packet) → put_item i p ≡ some q → q.type ≡ p.type
unfolding put_item
put_item-type (number k n) p q e = add-type (number_bytes k n) p q e
put_item-type (wide us) p q e = add_wstring-type us p q e

put_items-type : (is : List Item) (p q : Packet) → put_items is p ≡ some q → q.type ≡ p.type
unfolding put_items
put_items-type [] p q e = ground arith
put_items-type (i ∷ is) p q e = elim (Option-cases (put_item i p)) [
  | inl full ↦ absurd (ground (arith, full))
  | inr (r, went) ↦ put_items-type is r q (ground (arith, went)) ∙ put_item-type i p r went
]

-- A packet into which items have been put, as SendPacket gives it to the socket.
pub put_items-frame :
    (type : ℕ) (is : List Item)
    → length (items_bytes is) < packet_buffer_size
    → (p : Packet) × (put_items is (new_packet type) ≡ some p)
      × (number_bytes 2 p.len
            ++ (number_bytes 2 p.type ++ peek p.data_field 0 (p.len - packet_header_size))
          ≡ frame type (items_bytes is))
put_items-frame type is fits =
    let start : IsWritten (new_packet type) [] = record {
      at_start = refl;
      behind = refl;
      counted = refl;
      held = tt;
    } in
    let (p, e, w) = put_items-IsWritten is [] (new_packet type) start (omega arith) in
    let same = put_items-type is (new_packet type) p e in
    let size : p.len - packet_header_size ≡ length (items_bytes is) = omega (arith, w.counted) in
    let bytes = ap (peek p.data_field 0) size ∙ peek-Holds p.data_field 0 (items_bytes is) w.held in
    (
      p,
      e,
      ap
            (λ n.
              number_bytes 2 n
              ++ (number_bytes 2 p.type ++ peek p.data_field 0 (p.len - packet_header_size)))
            w.counted
          ∙ (ap
                (λ n.
                  number_bytes 2 (packet_header_size + length (items_bytes is))
                  ++ (number_bytes 2 n ++ peek p.data_field 0 (p.len - packet_header_size)))
                same
              ∙ ap
                  (λ bs.
                    number_bytes 2 (packet_header_size + length (items_bytes is))
                    ++ (number_bytes 2 type ++ bs))
                  bytes),
    )

-- The copy of a packet with the bytes that have come behind it.
pub copied_on :
    (type : ℕ) (bs behind : List ℕ) (memory : ℕ → ℕ) (at size : ℕ) (q : Packet)
    → type < 65536
    → length bs + length behind < packet_buffer_size
    → packet_header_size + (length bs + length behind) ≤ size
    → Holds memory at (frame type bs ++ behind)
    → IsReading (copy_to_packet_buffer (packet_at memory at) size q) (bs ++ behind)
      × ((copy_to_packet_buffer (packet_at memory at) size q).type ≡ type)
unfolding copy_to_packet_buffer number_bytes
copied_on type bs behind memory at size q small fits come h =
    let total = length-append bs behind in
    let rest = h.1.1.1.1 in
    (
      record {
        no_write = refl;
        ahead = omega (arith, total);
        left =
            Holds-moved memory _ (suc (suc (suc (suc at)))) 0 (bs ++ behind)
              (λ i below. ground (arith, total)) rest;
      },
      omega arith,
    )
