-- ===== src/Wire/Password.antt =====
-- A new room without a password: OkButton::HitSelect of Project/DXClient/OkButton.cpp puts two texts
-- into the packet, and ParsingRequCreateRoom of Project/DXServer/User.cpp reads three.
use network_omok.Base.{
  ℕ, ◌+◌, ◌/◌, ◌%◌, ◌<◌, ◌≤◌, ◌≡◌, ◌≢◌, ◌∙◌, ap, subst, some, List, ◌∷◌, ◌++◌, WString, length,
  length-append, append_assoc, arith, leb, false,
}
use network_omok.Protocol.{protocol_id, cs_requ_create_room}
use network_omok.Net.Packet.{
  Packet, number_bytes, wide_bytes, wide, copy_to_packet_buffer, packet_buffer_size,
  packet_header_size,
}
use network_omok.Net.Packet.Bytes.{Holds, IsText}
use network_omok.Net.Packet.Items.{item_bytes}
use network_omok.Net.Packet.Framing.{packet_at, frame, length-frame, copied_on}
use network_omok.Net.Packet.Reading.{IsReading}
use network_omok.Server.{Server}
use network_omok.Server.Requests.{max_rooms}
use network_omok.Server.Dispatch.{create_room}
use network_omok.Wire.{Database, read_request, read_fields}
use network_omok.Wire.Reading.{three_texts}

-- The bytes of the packet without a password.
abbrev two_bytes : WString → WString → List ℕ
two_bytes host title = item_bytes (wide host) ++ item_bytes (wide title)

-- A header before a text reads as two more characters.
header_text :
    (len type : ℕ) (us : WString) (rest : List ℕ)
    → len < 65536
    → type < 65536
    → number_bytes 2 len ++ (number_bytes 2 type ++ (item_bytes (wide us) ++ rest))
      ≡ item_bytes (wide (len ∷ type ∷ us)) ++ rest
unfolding number_bytes wide_bytes
header_text len type us rest small small' =
    ap (λ h. len % 256 ∷ h ∷ type % 256 ∷ type / 256 % 256 ∷ (item_bytes (wide us) ++ rest))
      (omega arith)
    ∙ ap (λ h. len % 256 ∷ len / 256 ∷ type % 256 ∷ h ∷ (item_bytes (wide us) ++ rest))
        (omega arith)

-- The bytes of the packet, and of the next one, which begins with a text.
abbrev pub two_packets : WString → WString → ℕ → WString → List ℕ → List ℕ
two_packets host title type us rest =
    frame (protocol_id cs_requ_create_room) (two_bytes host title)
    ++ frame type (item_bytes (wide us) ++ rest)

-- A client that makes a room without a password, and sends another packet that begins with a text:
-- if both have come when the first is handled, and there is place for a room, the server takes the
-- length and the number of the second packet and its first text for the password of the room.
pub read_request-no_password :
    (db : Database) (s : Server) (host title : WString) (type : ℕ) (us : WString) (rest : List ℕ)
    (memory : ℕ → ℕ) (at size : ℕ) (q : Packet)
    → IsText host
    → IsText title
    → IsText us
    → type ≢ 0
    → type < 65536
    → length (two_packets host title type us rest) < packet_buffer_size
    → length (two_packets host title type us rest) ≤ size
    → Holds memory at (two_packets host title type us rest)
    → leb max_rooms (length s.room_map) ≡ false
    → read_request db s (copy_to_packet_buffer (packet_at memory at) size q)
      ≡ some (
          create_room host title
            ((packet_header_size + length (item_bytes (wide us) ++ rest)) ∷ type ∷ us))
unfolding read_request read_fields protocol_id
read_request-no_password db s host title type us rest memory at size q a b c some_type small fits
      come h room =
    let len = packet_header_size + length (item_bytes (wide us) ++ rest) in
    let first = two_bytes host title in
    let next = frame type (item_bytes (wide us) ++ rest) in
    let total = length-append (frame 1005 first) next in
    let total' = length-append first next in
    let long = length-frame 1005 first in
    let long' = length-frame type (item_bytes (wide us) ++ rest) in
    let (reading, id) =
      copied_on 1005 first next memory at size q (omega arith) (omega (arith, total, long, total'))
        (omega (arith, total, long, total')) h in
    let p = copy_to_packet_buffer (packet_at memory at) size q in
    let laid : first ++ next
        ≡ item_bytes (wide host)
          ++ (item_bytes (wide title) ++ (item_bytes (wide (len ∷ type ∷ us)) ++ rest)) =
      append_assoc (item_bytes (wide host)) (item_bytes (wide title)) next
      ∙ ap (λ bs. item_bytes (wide host) ++ (item_bytes (wide title) ++ bs))
          (header_text len type us rest (omega (arith, total, long', total')) small) in
    let (_, e, _) =
      three_texts host title (len ∷ type ∷ us) rest p a b
        (λ none_left. omega arith, omega (arith, total, long', total'), (some_type, small, c))
        (subst (IsReading p) laid reading) in
    ap (λ n. read_fields n db s p) id
    ∙ rw room (e (λ host title ps q. some (create_room host title ps)))
