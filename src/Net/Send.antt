-- ===== src/Net/Send.antt =====
-- Project/NetLib/Session.cpp: SendPacket with its buffer, SendMsgCheck and SendLessProcess. Whether
-- WSASend takes the bytes is an argument of each call; what it has been given is kept in `posted`.
pub mod Completion
use network_omok.Base.{
  ℕ, ◌+◌, Bool, true, false, Option, none, some, List, [], ◌∷◌, ◌++◌, sub32, add32, ◌==◌,
  if◌then◌else◌, length,
}
use network_omok.Net.Packet.{poke, peek}
use network_omok.Net.Ring.{RingBuffer, allocate_to_buffer, release_buffer}

-- The fields of a Session that sending uses: `event` says whether m_sendEvent is set, and `buf` and
-- `len` are those of the WSABUF of m_overlappedSend.
pub record Sender : Type 0 where
  pub is_connect : Bool
  pub is_send : Bool
  pub event : Bool
  pub buf : Option ℕ
  pub len : ℕ
  pub io_send_cnt : ℕ
  pub send_buffer : RingBuffer
  pub posted : List (List ℕ)

-- WSASend with the WSABUF, and what follows: a failure takes the connection down.
abbrev post : Bool → ℕ → Sender → Sender
post works at u =
    if works
    then record u {
      posted = u.posted ++ (peek u.send_buffer.memory at u.len ∷ []);
      io_send_cnt = add32 u.io_send_cnt 1;
    }
    else record u { is_connect = false }

-- CopyMemory into the bytes that AllocateToBuffer has handed out, and the WSABUF.
fill : Bool → List ℕ → Option ℕ × RingBuffer → Sender → Option Sender
fill works bytes (none, r) u = none
fill works bytes (some at, r) u = some (
    post works at (record u {
      buf = some at;
      len = length bytes;
      send_buffer = record r { memory = poke r.memory at bytes };
    }))

-- Session::SendPacket for the bytes of a packet. It waits for the event, which is `none` here unless
-- the event is set; a copy to nullptr is undefined.
pub send_bytes : Bool → List ℕ → Sender → Option Sender
unfolding fill allocate_to_buffer
send_bytes works bytes u =
    let waiting : Sender = record u { is_send = true; event = false } in
    let sent = fill works bytes (allocate_to_buffer (length bytes) u.send_buffer) waiting in
    if u.is_connect then (if u.event then sent else none) else some u

-- The end of SendLessProcess with the result of ReleaseBuffer; the length wraps as a DWORD.
repost : Bool → ℕ → Option ℕ × RingBuffer → Sender → Option Sender
repost works transferred (none, r) u = none
repost works transferred (some at, r) u =
    some
      (post works at (record u { buf = some at; len = sub32 u.len transferred; send_buffer = r }))

-- Session::SendLessProcess
pub send_less_process : Bool → ℕ → Sender → Option Sender
unfolding repost release_buffer
send_less_process works transferred u =
    let again : Sender = record u { is_send = true } in
    let rest = repost works transferred (release_buffer transferred u.send_buffer) again in
    if u.is_connect then rest else some u

-- Session::SendMsgCheck: a completion with the number of bytes that have gone.
pub send_msg_check : Bool → ℕ → Sender → Option Sender
unfolding send_less_process release_buffer
send_msg_check works transferred u =
    let done : Sender = record u {
      send_buffer = (release_buffer transferred u.send_buffer).1;
      is_send = false;
      event = true;
    } in
    let less = send_less_process works transferred u in
    if u.is_connect
    then (if u.is_send then (if u.len == transferred then some done else less) else some u)
    else some u

-- The completions of one send, one after the other.
pub completions : List ℕ → Sender → Option Sender
unfolding send_msg_check
completions [] u = some u
completions (n ∷ ns) u = elim (send_msg_check true n u) [ none ↦ none | some v ↦ completions ns v ]
