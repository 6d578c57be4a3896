-- ===== src/Net/Tests/Sending.antt =====
-- Sending and receiving over a socket, at concrete values.
use network_omok.Base.{
  ℕ, zero, suc, ◌≤◌, ◌≡◌, refl, true, false, Option, some, none, List, [], ◌∷◌, arith,
}
use network_omok.Net.Packet.Bytes.{Holds}
use network_omok.Net.Ring.{create}
use network_omok.Net.Send.{Sender, send_bytes, completions}
use network_omok.Net.Send.Completion.{IsIdle, send_bytes-IsIdle}
use network_omok.Net.Socket.{recv_body}
use network_omok.Net.Socket.Loops.{IsWorking, recv_body_in_parts}
use network_omok.Net.Socket.Whole.{at_rest, relay, relay-Pool}

abbrev idle : Sender
idle = record {
  is_connect = true;
  is_send = false;
  event = true;
  buf = none;
  len = 0;
  io_send_cnt = 0;
  send_buffer = create;
  posted = [];
}

idle-IsIdle : IsIdle idle
idle-IsIdle = record {
  connected = refl;
  signalled = refl;
  still = refl;
  linear = record { created = refl; ordered = refl; inside = ground arith };
  empty = refl;
}

-- Five bytes that go as two and three.
send_bytes-IsIdle_example :
    (v w : Sender) × (send_bytes true (1 ∷ 2 ∷ 3 ∷ 4 ∷ 5 ∷ []) idle ≡ some v)
    × (completions (2 ∷ 3 ∷ []) v ≡ some w)
    × (w.posted ≡ (1 ∷ 2 ∷ 3 ∷ 4 ∷ 5 ∷ []) ∷ (3 ∷ 4 ∷ 5 ∷ []) ∷ [])
    × IsIdle w
send_bytes-IsIdle_example =
    send_bytes-IsIdle (1 ∷ 2 ∷ []) ((3 ∷ 4 ∷ 5 ∷ []) ∷ []) idle idle-IsIdle
      (ground arith, (ground arith, tt)) (ground arith)

-- A system that takes one byte each time.
abbrev one_byte : ℕ → ℕ → Option ℕ
one_byte call len = some 1

one_byte-IsWorking : IsWorking one_byte
one_byte-IsWorking call len more = (1, refl, omega arith, omega arith)

-- A packet that is only a header, and one with three bytes of data.
abbrev two_packets : List (List ℕ)
two_packets = (4 ∷ 0 ∷ 9 ∷ 0 ∷ []) ∷ (7 ∷ 0 ∷ 9 ∷ 0 ∷ 1 ∷ 2 ∷ 3 ∷ []) ∷ []

relay-Pool_example :
    (written : ℕ → ℕ) × (relay one_byte (λ i. 0) two_packets (at_rest (λ i. 0) [])
      ≡ some (at_rest written two_packets))
relay-Pool_example =
    relay-Pool one_byte one_byte-IsWorking (λ i. 0) two_packets (λ i. 0) []
      ((refl, ground arith), ((refl, ground arith), tt)) (ground arith, (ground arith, tt))

-- Two bytes of a body, and then one.
abbrev two_then_one : ℕ → ℕ → List ℕ
two_then_one zero len = 1 ∷ 2 ∷ []
two_then_one (suc call) len = 3 ∷ []

recv_body_in_parts_example :
    (written : ℕ → ℕ) × (recv_body two_then_one 3 2 0 0 (λ i. 0) ≡ some (3, written))
    × Holds written 0 (3 ∷ [])
    × ((i : ℕ) → 2 ≤ i → 1 ≤ i → written i ≡ 0)
recv_body_in_parts_example =
    recv_body_in_parts two_then_one (1 ∷ 2 ∷ []) (3 ∷ []) (λ i. 0) (ground arith) (ground arith)
      refl refl
