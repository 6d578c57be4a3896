-- ===== src/Wire/Reading.antt =====
-- A packet that a client has put together is read by the server as what the client asks for.
use network_omok.Base.{
  ℕ, ◌<◌, ◌≡◌, ◌∙◌, ap, Option, none, some, List, [], ◌++◌, WString, length, arith, leb, Bool-cases,
  inl, inr, true, false,
}
use network_omok.Protocol.{protocol_id, cs_requ_create_room}
use network_omok.Net.Packet.{Packet, number, wide}
use network_omok.Net.Packet.Bytes.{capacity, IsText}
use network_omok.Net.Packet.Items.{AllItems, items_bytes, item_bytes}
use network_omok.Net.Packet.Reading.{IsReading, get_item-IsReading}
use network_omok.Server.{Float, Address, Server}
use network_omok.Server.Requests.{requ_create_room, max_rooms}
use network_omok.Server.Dispatch.{
  Request, account, login, create_room, room_entry, player_ready, player_room_exit, player_start,
  requ_stone, packet_parsing,
}
use network_omok.Wire.{
  ClientPacket, account_packet, login_packet, create_room_packet, room_entry_packet,
  player_ready_packet, player_room_exit_packet, player_start_packet, put_stone_packet, message_of,
  items_of, Database, get_text, get_uint32, read_fields, read_request, handle_packet,
}

-- The request that a packet stands for.
abbrev pub request_of : Database → Server → ClientPacket → Request
request_of db s (account_packet id ps age) = account (db.account_reply s id ps age)
request_of db s (login_packet id ps) = login (db.login_reply s id ps) (db.info_reply s id) id
request_of db s (create_room_packet host title ps) = create_room host title ps
request_of db s (room_entry_packet title id) = room_entry title id
request_of db s (player_ready_packet host) = player_ready host
request_of db s (player_room_exit_packet title exit) = player_room_exit title exit
request_of db s (player_start_packet title) = player_start title
request_of db s (put_stone_packet put another title p stone) = requ_stone put another title p stone

text_step :
    (us : WString) (rest : List ℕ) (p : Packet)
    → IsText us
    → IsReading p (item_bytes (wide us) ++ rest)
    → (q : Packet) × ((k : WString → Packet → Option Request) → get_text p k ≡ k us q)
      × IsReading q rest
unfolding get_text
text_step us rest p ok r =
    let (q, e, after) = get_item-IsReading (wide us) rest p ok r in (q, λ k. rw e, after)

number_step :
    (n : ℕ) (rest : List ℕ) (p : Packet)
    → n < capacity 4
    → IsReading p (item_bytes (number 4 n) ++ rest)
    → (q : Packet) × ((k : ℕ → Packet → Option Request) → get_uint32 p k ≡ k n q) × IsReading q rest
unfolding get_uint32
number_step n rest p ok r =
    let (q, e, after) = get_item-IsReading (number 4 n) rest p (omega arith, ok) r in
    (q, λ k. rw e, after)

two_texts :
    (a b : WString) (rest : List ℕ) (p : Packet)
    → IsText a
    → IsText b
    → IsReading p (item_bytes (wide a) ++ (item_bytes (wide b) ++ rest))
    → (q : Packet) × ((k : WString → WString → Packet → Option Request)
        → get_text p (λ x q. get_text q (k x)) ≡ k a b q)
      × IsReading q rest
two_texts a b rest p is_a is_b r =
    let (q, e, behind) = text_step a (item_bytes (wide b) ++ rest) p is_a r in
    let (t, f, last) = text_step b rest q is_b behind in
    (t, λ k. e (λ x q. get_text q (k x)) ∙ f (k a), last)

pub three_texts :
    (a b c : WString) (rest : List ℕ) (p : Packet)
    → IsText a
    → IsText b
    → IsText c
    → IsReading p (item_bytes (wide a) ++ (item_bytes (wide b) ++ (item_bytes (wide c) ++ rest)))
    → (q : Packet) × ((k : WString → WString → WString → Packet → Option Request)
        → get_text p (λ x q. get_text q (λ y q. get_text q (k x y))) ≡ k a b c q)
      × IsReading q rest
three_texts a b c rest p is_a is_b is_c r =
    let (q, e, behind) = two_texts a b (item_bytes (wide c) ++ rest) p is_a is_b r in
    let (t, f, last) = text_step c rest q is_c behind in
    (t, λ k. e (λ x y q. get_text q (k x y)) ∙ f (k a b), last)

three_numbers :
    (a b c : ℕ) (rest : List ℕ) (p : Packet)
    → a < capacity 4
    → b < capacity 4
    → c < capacity 4
    → IsReading p
        (item_bytes (number 4 a) ++ (item_bytes (number 4 b) ++ (item_bytes (number 4 c) ++ rest)))
    → (q : Packet) × ((k : ℕ → ℕ → ℕ → Packet → Option Request)
        → get_uint32 p (λ x q. get_uint32 q (λ y q. get_uint32 q (k x y))) ≡ k a b c q)
      × IsReading q rest
three_numbers a b c rest p is_a is_b is_c r =
    let (q, e, second) =
      number_step a (item_bytes (number 4 b) ++ (item_bytes (number 4 c) ++ rest)) p is_a r in
    let (t, f, third) = number_step b (item_bytes (number 4 c) ++ rest) q is_b second in
    let (u, g, last) = number_step c rest t is_c third in
    (
      u,
      λ k.
          e (λ x q. get_uint32 q (λ y q. get_uint32 q (k x y)))
          ∙ (f (λ y q. get_uint32 q (k a y)) ∙ g (k a b)),
      last,
    )

-- A room is read only if there is place for it.
abbrev IsRead : ClientPacket → Server → Type 0
IsRead (create_room_packet host title ps) s = leb max_rooms (length s.room_map) ≡ false
IsRead _ s = Unit {0}

module _ (bits : Float → ℕ) (db : Database) (s : Server) where
  fields_read :
      (pk : ClientPacket) (p : Packet)
      → AllItems (items_of bits (message_of pk))
      → IsReading p (items_bytes (items_of bits (message_of pk)))
      → IsRead pk s
      → read_fields (protocol_id (message_of pk).protocol) db s p ≡ some (request_of db s pk)
  unfolding read_fields protocol_id
  fields_read (account_packet id ps age) p ok r room =
      let (q, e, _) = three_texts id ps age [] p ok.0 ok.1.0 ok.1.1.0 r in
      e (λ id ps age q. some (account (db.account_reply s id ps age)))
  fields_read (login_packet id ps) p ok r room =
      let (q, e, _) = two_texts id ps [] p ok.0 ok.1.0 r in
      e (λ id ps q. some (login (db.login_reply s id ps) (db.info_reply s id) id))
  fields_read (create_room_packet host title ps) p ok r room =
      let (q, e, _) = three_texts host title ps [] p ok.0 ok.1.0 ok.1.1.0 r in
      rw room (e (λ host title ps q. some (create_room host title ps)))
  fields_read (room_entry_packet title id) p ok r room =
      let (q, e, _) = two_texts title id [] p ok.0 ok.1.0 r in
      e (λ title id q. some (room_entry title id))
  fields_read (player_ready_packet host) p ok r room =
      let (q, e, _) = text_step host [] p ok.0 r in e (λ host q. some (player_ready host))
  fields_read (player_room_exit_packet title exit) p ok r room =
      let (q, e, _) = two_texts title exit [] p ok.0 ok.1.0 r in
      e (λ title exit q. some (player_room_exit title exit))
  fields_read (player_start_packet title) p ok r room =
      let (q, e, _) = text_step title [] p ok.0 r in e (λ title q. some (player_start title))
  fields_read (put_stone_packet put another title (y, x) stone) p ok r room =
      let tail = ok.1.1.1 in
      let (q, e, behind) = three_texts put another title _ p ok.0 ok.1.0 ok.1.1.0 r in
      let (t, f, _) = three_numbers y x stone [] q tail.0.1 tail.1.0.1 tail.1.1.0.1 behind in
      e (λ put another title q. get_uint32 q (λ y q.
        get_uint32 q
          (λ x q. get_uint32 q (λ stone q. some (requ_stone put another title (y, x) stone)))))
      ∙ f (λ y x stone q. some (requ_stone put another title (y, x) stone))

  packet_read :
      (me : Address) (pk : ClientPacket) (p : Packet)
      → AllItems (items_of bits (message_of pk))
      → IsReading p (items_bytes (items_of bits (message_of pk)))
      → p.type ≡ protocol_id (message_of pk).protocol
      → IsRead pk s
      → handle_packet me db p s ≡ packet_parsing me (request_of db s pk) s
  unfolding handle_packet read_request
  packet_read me pk p ok r type room =
      let read : read_fields p.type db s p ≡ some (request_of db s pk) =
        ap (λ n. read_fields n db s p) type ∙ fields_read pk p ok r room in
      ap
        (λ o. elim o as (λ _. Option (Unit {0} × Server)) [
          | none ↦ none
          | some q ↦ packet_parsing me q s
        ])
        read

  room_refused :
      (me : Address) (host title ps : WString) (p : Packet)
      → p.type ≡ protocol_id cs_requ_create_room
      → leb max_rooms (length s.room_map) ≡ true
      → handle_packet me db p s ≡ packet_parsing me (create_room host title ps) s
  unfolding handle_packet read_request read_fields protocol_id packet_parsing requ_create_room
  room_refused me host title ps p type full = ground (arith, type, full)

  -- A packet that is read from its start and has the protocol number and the items of a client's
  -- packet, texts without a zero and numbers that fit into their bytes: the server handles it as the
  -- request that it stands for.
  pub handle_packet-Carried :
      (me : Address) (pk : ClientPacket) (p : Packet)
      → AllItems (items_of bits (message_of pk))
      → IsReading p (items_bytes (items_of bits (message_of pk)))
      → p.type ≡ protocol_id (message_of pk).protocol
      → handle_packet me db p s ≡ packet_parsing me (request_of db s pk) s
  handle_packet-Carried me (create_room_packet host title ps) p ok r type =
      elim (Bool-cases (leb max_rooms (length s.room_map))) [
        | inl full ↦ room_refused me host title ps p type full
        | inr room ↦ packet_read me (create_room_packet host title ps) p ok r type room
      ]
  handle_packet-Carried me (account_packet a b c) p ok r type =
      packet_read me (account_packet a b c) p ok r type tt
  handle_packet-Carried me (login_packet a b) p ok r type =
      packet_read me (login_packet a b) p ok r type tt
  handle_packet-Carried me (room_entry_packet a b) p ok r type =
      packet_read me (room_entry_packet a b) p ok r type tt
  handle_packet-Carried me (player_ready_packet a) p ok r type =
      packet_read me (player_ready_packet a) p ok r type tt
  handle_packet-Carried me (player_room_exit_packet a b) p ok r type =
      packet_read me (player_room_exit_packet a b) p ok r type tt
  handle_packet-Carried me (player_start_packet a) p ok r type =
      packet_read me (player_start_packet a) p ok r type tt
  handle_packet-Carried me (put_stone_packet a b c d e) p ok r type =
      packet_read me (put_stone_packet a b c d e) p ok r type tt
