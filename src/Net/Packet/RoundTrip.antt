-- ===== src/Net/Packet/RoundTrip.antt =====
-- What one side puts into a packet, the other side gets out of it.
use network_omok.Base.{ℕ, ◌+◌, ◌<◌, ◌≡◌, refl, some, List, [], map, length, arith}
use network_omok.Net.Packet.{
  Packet, new_packet, copy_to_packet_buffer, Item, put_items, get_items, packet_header_size,
  packet_buffer_size,
}
use network_omok.Net.Packet.Items.{AllItems, items_bytes, kind_of}
use network_omok.Net.Packet.Writing.{IsWritten, put_items-IsWritten}
use network_omok.Net.Packet.Reading.{get_items-IsReading, copied-IsReading}

-- Items that fit into the buffer: putting them into a fresh packet succeeds, with the length of the
-- header and of all their bytes; and whoever gets that many bytes into a packet of its own, whatever
-- was in that, and reads items of these kinds, gets these items.
pub get_items-put_items :
    (type : ℕ) (is : List Item) (q : Packet)
    → AllItems is
    → length (items_bytes is) < packet_buffer_size
    → (p r : Packet) × (put_items is (new_packet type) ≡ some p)
      × (p.len ≡ packet_header_size + length (items_bytes is))
      × (get_items (map kind_of is) (copy_to_packet_buffer p p.len q) ≡ some (is, r))
get_items-put_items type is q ok fits =
    let start : IsWritten (new_packet type) [] = record {
      at_start = refl;
      behind = refl;
      counted = refl;
      held = tt;
    } in
    let (p, e, w) = put_items-IsWritten is [] (new_packet type) start (omega arith) in
    let len = w.counted in
    let reading = copied-IsReading (items_bytes is) p q w.counted w.held fits in
    let (r, f) = get_items-IsReading is (copy_to_packet_buffer p p.len q) ok reading in
    (p, r, e, len, f)
