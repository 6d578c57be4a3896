-- ===== src/Net/Packet/Writing.antt =====
-- operator<< on a packet that has room.
use network_omok.Base.{
  ℕ, ◌+◌, ◌<◌, ◌≡◌, refl, sym, subst, some, List, [], ◌∷◌, ◌++◌, append_assoc, append-nil, WString,
  length, length-append, add16, arith,
}
use network_omok.Net.Packet.{
  Packet, number_bytes, wide_bytes, poke, append_bytes, make_room, add, terminate, add_wstring,
  Item, number, wide, put_item, put_items, packet_header_size, packet_buffer_size,
}
use network_omok.Net.Packet.Bytes.{Holds, poke_below, Holds-poke, Holds-ext, Holds-at, Holds-join}
use network_omok.Net.Packet.Items.{item_bytes, items_bytes}

-- A packet that has only been written to: its data begins with the bytes.
pub record IsWritten (p : Packet) (bs : List ℕ) : Type 0 where
  pub at_start : p.read_pos ≡ 0
  pub behind : p.write_pos ≡ length bs
  pub counted : p.len ≡ packet_header_size + length bs
  pub held : Holds p.data_field 0 bs

append_bytes-Holds :
    (bs xs : List ℕ) (p : Packet)
    → Holds p.data_field 0 bs
    → p.write_pos ≡ length bs
    → Holds (poke p.data_field p.write_pos xs) 0 (bs ++ xs)
append_bytes-Holds bs xs p h e =
    Holds-join _ 0 bs xs
      (Holds-ext p.data_field _ 0 bs
        (λ i below. poke_below p.data_field p.write_pos xs i (omega arith)) h)
      (Holds-at _ p.write_pos (0 + length bs) xs (omega arith)
        (Holds-poke p.data_field p.write_pos xs))

add-IsWritten :
    (xs bs : List ℕ) (p : Packet)
    → IsWritten p bs
    → length bs + length xs < packet_buffer_size
    → (q : Packet) × (add xs p ≡ some q) × IsWritten q (bs ++ xs)
unfolding add make_room append_bytes
add-IsWritten xs bs p w fits =
    let a = w.at_start in
    let b = w.behind in
    let c = w.counted in
    (
      record p {
        len = add16 p.len (length xs);
        data_field = poke p.data_field p.write_pos xs;
        write_pos = p.write_pos + length xs;
      },
      ground arith,
      record {
        at_start = a;
        behind = omega (arith, length-append bs xs);
        counted = omega (arith, length-append bs xs);
        held = append_bytes-Holds bs xs p w.held b;
      },
    )

terminate-IsWritten :
    (bs : List ℕ) (p : Packet)
    → IsWritten p bs
    → length bs + 2 < packet_buffer_size
    → (q : Packet) × (terminate p ≡ some q) × IsWritten q (bs ++ (0 ∷ 0 ∷ []))
unfolding terminate append_bytes
terminate-IsWritten bs p w fits =
    let b = w.behind in
    let c = w.counted in
    (
      record p {
        len = add16 p.len 2;
        data_field = poke p.data_field p.write_pos (0 ∷ 0 ∷ []);
        write_pos = p.write_pos + 2;
      },
      ground arith,
      record {
        at_start = w.at_start;
        behind = omega (arith, length-append bs (0 ∷ 0 ∷ []));
        counted = omega (arith, length-append bs (0 ∷ 0 ∷ []));
        held = append_bytes-Holds bs (0 ∷ 0 ∷ []) p w.held b;
      },
    )

put_wide :
    (us : WString) (p q r : Packet)
    → add (wide_bytes us) p ≡ some q
    → terminate q ≡ some r
    → put_item (wide us) p ≡ some r
unfolding put_item add_wstring
put_wide us p q r e f = ground (arith, e, f)

put_item-IsWritten :
    (i : Item) (bs : List ℕ) (p : Packet)
    → IsWritten p bs
    → length bs + length (item_bytes i) < packet_buffer_size
    → (q : Packet) × (put_item i p ≡ some q) × IsWritten q (bs ++ item_bytes i)
unfolding put_item
put_item-IsWritten (number k n) bs p w fits = add-IsWritten (number_bytes k n) bs p w fits
put_item-IsWritten (wide us) bs p w fits =
    let total = length-append (wide_bytes us) (0 ∷ 0 ∷ []) in
    let (q, e, v) = add-IsWritten (wide_bytes us) bs p w (omega (arith, total)) in
    let (r, f, u) =
      terminate-IsWritten (bs ++ wide_bytes us) q v
        (omega (arith, total, length-append bs (wide_bytes us))) in
    (r, put_wide us p q r e f, subst (IsWritten r) (append_assoc bs (wide_bytes us) (0 ∷ 0 ∷ [])) u)

pub put_items-IsWritten :
    (is : List Item) (bs : List ℕ) (p : Packet)
    → IsWritten p bs
    → length bs + length (items_bytes is) < packet_buffer_size
    → (q : Packet) × (put_items is p ≡ some q) × IsWritten q (bs ++ items_bytes is)
unfolding put_items
put_items-IsWritten [] bs p w fits = (p, refl, subst (IsWritten p) (sym (append-nil bs)) w)
put_items-IsWritten (i ∷ is) bs p w fits =
    let total = length-append (item_bytes i) (items_bytes is) in
    let (q, e, v) = put_item-IsWritten i bs p w (omega (arith, total)) in
    let (r, f, u) =
      put_items-IsWritten is (bs ++ item_bytes i) q v
        (omega (arith, total, length-append bs (item_bytes i))) in
    (
      r,
      ground (arith, e, f),
      subst (IsWritten r) (append_assoc bs (item_bytes i) (items_bytes is)) u,
    )
