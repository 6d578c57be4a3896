-- ===== src/Net/Send/Completion.antt =====
-- A send of Project/NetLib/Session.cpp comes to its end however the system divides it.
use network_omok.Base.{
  ℕ, ◌+◌, ◌≤◌, ◌<◌, ◌≡◌, refl, true, false, some, List, [], ◌∷◌, ◌++◌, map, ◌∙◌, ap, sym, subst,
  arith, length, length-append, append_assoc, append-nil, sub32, add32,
}
use network_omok.Net.Packet.{poke}
use network_omok.Net.Packet.Bytes.{Holds, Holds-poke, Holds-split, peek-Holds}
use network_omok.Net.Ring.{end_pos, allocate_to_buffer, release_buffer}
use network_omok.Net.Ring.Linear.{IsLinear}
use network_omok.Net.Send.{Sender, send_bytes, send_less_process, send_msg_check, completions}

-- A connected session that sends nothing.
pub record IsIdle (u : Sender) : Type 0 where
  pub connected : u.is_connect ≡ true
  pub signalled : u.event ≡ true
  pub still : u.is_send ≡ false
  pub linear : IsLinear u.send_buffer
  pub empty : u.send_buffer.used_buffer_size ≡ 0

-- A session of which these bytes are still to go: they are in its buffer, and the WSABUF spans them.
record IsSending (rest : List ℕ) (u : Sender) : Type 0 where
  pub connected : u.is_connect ≡ true
  pub sending : u.is_send ≡ true
  pub linear : IsLinear u.send_buffer
  length_is : u.len ≡ length rest
  pub used : u.send_buffer.used_buffer_size ≡ length rest
  pub held : Holds u.send_buffer.memory u.send_buffer.read_pos rest

-- The bytes of some parts, one part after the other.
abbrev concat : List (List ℕ) → List ℕ
concat [] = []
concat (p ∷ ps) = p ++ concat ps

part_done :
    (part more : List ℕ) (u : Sender)
    → 0 < length part
    → 0 < length more
    → IsSending (part ++ more) u
    → (v : Sender) × (send_msg_check true (length part) u ≡ some v)
      × (v.posted ≡ u.posted ++ (more ∷ []))
      × IsSending more v
unfolding send_msg_check send_less_process release_buffer
part_done part more u some_bytes some_more s =
    let lengths = length-append part more in
    let held = (Holds-split u.send_buffer.memory u.send_buffer.read_pos part more s.held).1 in
    let rest : sub32 u.len (length part) ≡ length more = ground (arith, lengths) in
    let seen = peek-Holds u.send_buffer.memory (u.send_buffer.read_pos + length part) more held in
    (
      record u {
        is_send = true;
        buf = some (u.send_buffer.read_pos + length part);
        len = sub32 u.len (length part);
        send_buffer = record u.send_buffer {
          read_pos = u.send_buffer.read_pos + length part;
          used_buffer_size = sub32 u.send_buffer.used_buffer_size (length part);
        };
        posted = u.posted ++ (more ∷ []);
        io_send_cnt = add32 u.io_send_cnt 1;
      },
      ground (arith, lengths, rest, seen),
      refl,
      record {
        connected = s.connected;
        sending = refl;
        linear = record {
          created = s.linear.created;
          ordered = ground (arith, lengths);
          inside = s.linear.inside;
        };
        length_is = rest;
        used = ground (arith, lengths);
        held = held;
      },
    )

last_done :
    (part : List ℕ) (u : Sender)
    → IsSending part u
    → (v : Sender) × (send_msg_check true (length part) u ≡ some v)
      × (v.posted ≡ u.posted)
      × IsIdle v
unfolding send_msg_check release_buffer
last_done part u s = (
  record u {
    is_send = false;
    event = true;
    send_buffer = (release_buffer (length part) u.send_buffer).1;
  },
  ground arith,
  refl,
  record {
    connected = s.connected;
    signalled = refl;
    still = refl;
    linear = record { created = ground arith; ordered = ground arith; inside = ground arith };
    empty = ground arith;
  },
)

send_bytes-IsSending :
    (bytes : List ℕ) (u : Sender)
    → IsIdle u
    → u.send_buffer.write_pos + length bytes ≤ end_pos
    → (v : Sender) × (send_bytes true bytes u ≡ some v)
      × (v.posted ≡ u.posted ++ (bytes ∷ []))
      × IsSending bytes v
unfolding send_bytes allocate_to_buffer
send_bytes-IsSending bytes u idle fits =
    let written = Holds-poke u.send_buffer.memory u.send_buffer.write_pos bytes in
    let seen = peek-Holds _ u.send_buffer.write_pos bytes written in
    (
      record u {
        is_send = true;
        event = false;
        buf = some u.send_buffer.write_pos;
        len = length bytes;
        send_buffer = record u.send_buffer {
          memory = poke u.send_buffer.memory u.send_buffer.write_pos bytes;
          write_pos = u.send_buffer.write_pos + length bytes;
          used_buffer_size = add32 u.send_buffer.used_buffer_size (length bytes);
        };
        posted = u.posted ++ (bytes ∷ []);
        io_send_cnt = add32 u.io_send_cnt 1;
      },
      ground (arith, seen),
      refl,
      record {
        connected = idle.connected;
        sending = refl;
        linear = record { created = idle.linear.created; ordered = ground arith; inside = fits };
        length_is = refl;
        used = ground arith;
        held =
            subst (λ at. Holds (poke u.send_buffer.memory u.send_buffer.write_pos bytes) at bytes)
              (ground arith) written;
      },
    )

-- The system takes at least one byte each time.
abbrev AreSome : List (List ℕ) → Type 0
AreSome [] = Unit {0}
AreSome (p ∷ ps) = (0 < length p) × AreSome ps

-- What is sent again behind each part but the last.
abbrev remainders : List ℕ → List (List ℕ) → List (List ℕ)
remainders p [] = []
remainders p (q ∷ ps) = concat (q ∷ ps) ∷ remainders q ps

concat-some : (p : List ℕ) (ps : List (List ℕ)) → 0 < length p → 0 < length (concat (p ∷ ps))
concat-some p ps some_bytes = omega (arith, length-append p (concat ps))

completions-IsIdle :
    (p : List ℕ) (ps : List (List ℕ)) (u : Sender)
    → AreSome (p ∷ ps)
    → IsSending (concat (p ∷ ps)) u
    → (v : Sender) × (completions (map length (p ∷ ps)) u ≡ some v)
      × (v.posted ≡ u.posted ++ remainders p ps)
      × IsIdle v
unfolding completions
completions-IsIdle p [] u parts s =
    let (v, done, posted, idle) = last_done p u (subst (λ bs. IsSending bs u) (append-nil p) s) in
    (v, ground (arith, done), posted ∙ sym (append-nil u.posted), idle)
completions-IsIdle p (q ∷ ps) u parts s =
    let (v, went, posted, sending) =
      part_done p (concat (q ∷ ps)) u parts.0 (concat-some q ps parts.1.0) s in
    let (w, done, posted', idle) = completions-IsIdle q ps v parts.1 sending in
    (
      w,
      ground (arith, went, done),
      posted'
          ∙ (ap (λ b. b ++ remainders q ps) posted
              ∙ append_assoc u.posted (concat (q ∷ ps) ∷ []) (remainders q ps)),
      idle,
    )

-- A packet that fits behind the write position of the send buffer of a session that sends nothing,
-- over a connection that works: however the system divides its bytes into parts, none of them empty,
-- SendPacket and the completions return, each WSASend is given exactly the bytes that have not gone
-- yet, and in the end the session sends nothing, its event is set, and its buffer is empty.
pub send_bytes-IsIdle :
    (p : List ℕ) (ps : List (List ℕ)) (u : Sender)
    → IsIdle u
    → AreSome (p ∷ ps)
    → u.send_buffer.write_pos + length (concat (p ∷ ps)) ≤ end_pos
    → (v w : Sender) × (send_bytes true (concat (p ∷ ps)) u ≡ some v)
      × (completions (map length (p ∷ ps)) v ≡ some w)
      × (w.posted ≡ u.posted ++ (concat (p ∷ ps) ∷ remainders p ps))
      × IsIdle w
send_bytes-IsIdle p ps u idle parts fits =
    let (v, sent, posted, sending) = send_bytes-IsSending (concat (p ∷ ps)) u idle fits in
    let (w, done, posted', idle') = completions-IsIdle p ps v parts sending in
    (
      v,
      w,
      sent,
      done,
      posted'
          ∙ (ap (λ b. b ++ remainders p ps) posted
              ∙ append_assoc u.posted (concat (p ∷ ps) ∷ []) (remainders p ps)),
      idle',
    )
