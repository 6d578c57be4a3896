-- ===== src/Wire/Tests.antt =====
-- The packets of a client at the server, at concrete values.
use network_omok.Base.{
  ℕ, ◌+◌, ◌≡◌, refl, Option, none, some, List, [], ◌∷◌, ◌++◌, map, length, arith, true, false,
  WString,
}
use network_omok.Net.Packet.{
  number_bytes, wide, wide_bytes, new_packet, poke, copy_to_packet_buffer, packet_header_size,
}
use network_omok.Net.Packet.Bytes.{Holds-poke}
use network_omok.Net.Packet.Items.{item_bytes}
use network_omok.Net.Packet.Framing.{packet_at}
use network_omok.Net.Ring.Linear.{IsLinear}
use network_omok.Net.Receive.{Receiver}
use network_omok.Net.Receive.Frames.{joined}
use network_omok.Net.Receive.Dispatched.{IsIdle}
use network_omok.Server.{Float, User, Server}
use network_omok.Server.Login.{failed}
use network_omok.Server.Dispatch.{create_room}
use network_omok.Wire.{ClientPacket, player_ready_packet, room_entry_packet, Database, read_request}
use network_omok.Wire.Serve.{serve_transfer}
use network_omok.Wire.Serve.Run.{
  AllSendable, run_requests, packet_frame, sent_bytes-frames, serve_transfer-Sent,
}
use network_omok.Wire.Password.{two_packets, read_request-no_password}

abbrev id_a : WString
id_a = b'A' ∷ []

abbrev id_b : WString
id_b = b'B' ∷ []

abbrev title_r : WString
title_r = b'R' ∷ []

abbrev user : WString → User
user id = record {
  is_connect = true;
  is_login = true;
  is_in_room = false;
  room_title = [];
  id = id;
}

-- Two users, and no room.
abbrev lobby : Server
lobby = record {
  sessions = (10, user id_a) ∷ (11, user id_b) ∷ [];
  heap = λ a. none;
  next_address = 0;
  player_map = [];
  room_map = [];
  room_count = 0;
  link = λ a. true;
  sent = [];
  db_calls = [];
}

abbrev bits : Float → ℕ
bits f = 0

abbrev db : Database
db = record {
  account_reply = λ s id ps age. failed;
  login_reply = λ s id ps. failed;
  info_reply = λ s id. failed;
}

-- B wants to enter the room R, and says to the host A that it is ready, in one transfer.
abbrev packets : List ClientPacket
packets = room_entry_packet title_r id_b ∷ player_ready_packet id_a ∷ []

abbrev bytes : List ℕ
bytes = joined (map (packet_frame bits) packets)

sendable : AllSendable bits packets
unfolding number_bytes wide_bytes
sendable = (
  ((ground arith, ground arith, tt), ((ground arith, ground arith, tt), tt)),
  ground arith,
  (((ground arith, ground arith, tt), tt), ground arith, tt),
)

size_of_bytes : length bytes ≡ 20
unfolding number_bytes wide_bytes
size_of_bytes = refl

abbrev arrived : Receiver
arrived = record {
  buffer = record {
    memory = poke (λ i. 0) 0 bytes;
    read_pos = 0;
    write_pos = 2048;
    used_buffer_size = 2048;
    is_create = true;
  };
  received_packet_size = 0;
  handled = [];
}

arrived-IsLinear : IsLinear arrived.buffer
arrived-IsLinear = record { created = refl; ordered = ground arith; inside = ground arith }

serve_transfer-Sent_example :
    (t : Receiver) × (serve_transfer 11 db 40 (length bytes) arrived lobby
      ≡ elim (run_requests 11 db packets lobby) as (λ _. Option (Receiver × Server)) [
        | none ↦ none
        | some u ↦ some (t, u)
      ])
    × IsIdle t
serve_transfer-Sent_example =
    serve_transfer-Sent bits 11 db packets bytes 40 arrived lobby sendable
      (sent_bytes-frames bits packets sendable) arrived-IsLinear refl (omega (arith, size_of_bytes))
      (omega (arith, size_of_bytes)) (Holds-poke (λ i. 0) 0 bytes) (omega (arith, size_of_bytes))

-- A makes a room without a password and says at once that somebody, called R, is ready.
abbrev two : List ℕ
two = two_packets id_a title_r 1010 title_r []

size_of_two : length two ≡ 20
unfolding number_bytes wide_bytes
size_of_two = refl

read_request-no_password_example :
    read_request db lobby
      (copy_to_packet_buffer (packet_at (poke (λ i. 0) 0 two) 0) 20 (new_packet 0))
    ≡ some (
        create_room id_a title_r
          ((packet_header_size + length (item_bytes (wide title_r) ++ [])) ∷ 1010 ∷ title_r))
read_request-no_password_example =
    read_request-no_password db lobby id_a title_r 1010 title_r [] (poke (λ i. 0) 0 two) 0 20
      (new_packet 0) (ground arith, ground arith, tt) (ground arith, ground arith, tt)
      (ground arith, ground arith, tt) (ground arith) (ground arith) (omega (arith, size_of_two))
      (omega (arith, size_of_two)) (Holds-poke (λ i. 0) 0 two) refl
