-- ===== src/Net/Tests.antt =====
-- Packets, ring buffers and transfers, and the theorems about them at concrete ones.
mod Sending
use network_omok.Base.{
  ℕ, ◌+◌, ◌-◌, ◌<◌, ◌≡◌, refl, true, some, List, [], ◌∷◌, map, length, arith, if◌then◌else◌, ◌==◌,
}
use network_omok.Net.Packet.{
  Packet, new_packet, packet_buffer_size, number_bytes, wide_bytes, Item, number, wide, put_items,
  get_items, copy_to_packet_buffer,
}
use network_omok.Net.Packet.Items.{items_bytes, kind_of}
use network_omok.Net.Packet.RoundTrip.{get_items-put_items}
use network_omok.Net.Packet.Bytes.{Holds}
use network_omok.Net.Ring.{RingBuffer, create, end_pos, allocate_to_buffer, release_buffer}
use network_omok.Net.Ring.Linear.{IsLinear, release_buffer-IsLinear, wrap_then_release_overruns}
use network_omok.Net.Receive.{Receiver, dispatch_receive, keep_rest}
use network_omok.Net.Receive.Dispatched.{IsIdle, dispatch_receive-Frames, keep_rest_loses_rest}

-- An int32 and a wide string, as in the answer to a room entry.
abbrev items : List Item
items = number 4 1 ∷ wide (b'A' ∷ b'B' ∷ []) ∷ []

items_fit : length (items_bytes items) < packet_buffer_size
unfolding number_bytes wide_bytes
items_fit = ground arith

get_items-put_items_example :
    (p r : Packet) × (put_items items (new_packet 7) ≡ some p)
    × (p.len ≡ 4 + length (items_bytes items))
    × (get_items (map kind_of items) (copy_to_packet_buffer p p.len (new_packet 0))
        ≡ some (items, r))
get_items-put_items_example =
    get_items-put_items 7 items (new_packet 0)
      (
        (ground arith, ground arith),
        ((ground arith, ground arith, (ground arith, ground arith, tt)), tt),
      )
      items_fit

create-IsLinear : IsLinear create
create-IsLinear = record { created = refl; ordered = ground arith; inside = ground arith }

-- A buffer in use from 19000 to 20000.
abbrev late : RingBuffer
late = record create { read_pos = 19000; write_pos = 20000; used_buffer_size = 1000 }

late-IsLinear : IsLinear late
late-IsLinear = record { created = refl; ordered = ground arith; inside = ground arith }

wrap_then_release_overruns_example :
    (t u : RingBuffer) × (allocate_to_buffer 1000 late ≡ (some 479, t))
    × (release_buffer t.used_buffer_size t ≡ (some u.read_pos, u))
    × (u.used_buffer_size ≡ 0)
    × (end_pos < u.read_pos)
wrap_then_release_overruns_example =
    wrap_then_release_overruns 1000 late late-IsLinear (ground arith) (ground arith) (ground arith)

-- Two packets without fields in the receive buffer: their length and their number.
abbrev frames : List (List ℕ)
frames = (4 ∷ 0 ∷ 30 ∷ 0 ∷ []) ∷ (4 ∷ 0 ∷ 31 ∷ 0 ∷ []) ∷ []

abbrev arrived : Receiver
arrived = record {
  buffer = record {
    memory = λ i.
        if i == 0
        then 4
        else (if i == 2 then 30 else (if i == 4 then 4 else (if i == 6 then 31 else 0)));
    read_pos = 0;
    write_pos = 2048;
    used_buffer_size = 2048;
    is_create = true;
  };
  received_packet_size = 0;
  handled = [];
}

arrived-IsLinear : IsLinear arrived.buffer
arrived-IsLinear = record { created = refl; ordered = ground arith; inside = ground arith }

dispatch_receive-Frames_example :
    (t : Receiver) × (dispatch_receive 9 8 arrived ≡ some t) × (t.handled ≡ frames) × IsIdle t
dispatch_receive-Frames_example =
    dispatch_receive-Frames frames 9 arrived ((refl, ground arith), ((refl, ground arith), tt))
      arrived-IsLinear refl (ground arith) (ground arith)
      (refl, (refl, (refl, (refl, (refl, (refl, (refl, (refl, tt)))))))) (ground arith)

-- Two bytes of a packet have come.
abbrev partial : Receiver
partial = record arrived { received_packet_size = 2 }

keep_rest_loses_rest_example :
    (t : Receiver) × (keep_rest partial ≡ some t)
    × (t.buffer.read_pos ≡ 2048 - 2)
    × Holds t.buffer.memory t.buffer.read_pos (0 ∷ 0 ∷ [])
keep_rest_loses_rest_example =
    keep_rest_loses_rest partial (0 ∷ 0 ∷ []) arrived-IsLinear (ground arith) refl (ground arith)
      (ground arith) (refl, (refl, tt))
