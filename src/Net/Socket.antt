-- ===== src/Net/Socket.antt =====
-- Project/CoreNetClientLib/NetWorkClient.cpp: the loops of SendPacket and of RecvProcess around
-- `::send` and `::recv`, which are parameters: what a call returns may depend on how many calls there
-- have been and on the length that it is given.
pub mod Loops
pub mod Whole
use network_omok.Base.{
  ℕ, zero, suc, ◌+◌, ◌-◌, ◌*◌, Bool, Option, none, some, List, [], ◌∷◌, ◌++◌, ltb, leb, ◌==◌,
  if◌then◌else◌, length,
}
use network_omok.Net.Packet.{poke, peek, packet_buffer_size, packet_header_size}

-- The end of SendPacket: the number that it returns, or -1 for SOCKET_ERROR, with the bytes that
-- the calls have taken; `running` stands for a loop that has not ended when the fuel has.
pub data SendResult : Type 0 where
  returned : ℕ → List ℕ → SendResult
  socket_error : List ℕ → SendResult
  running : SendResult

-- The first `n` bytes, and those behind them.
pub take : ℕ → List ℕ → List ℕ
take zero bs = []
take (suc n) [] = []
take (suc n) (b ∷ bs) = b ∷ take n bs

pub drop : ℕ → List ℕ → List ℕ
drop zero bs = bs
drop (suc n) [] = []
drop (suc n) (b ∷ bs) = drop n bs

module _ (send : ℕ → ℕ → Option ℕ) (msg : List ℕ) where
  -- The loop of NetWorkClient::SendPacket; `wire` is what the calls have taken.
  pub send_loop : ℕ → ℕ → ℕ → List ℕ → SendResult
  unfolding take drop
  send_loop zero call send_size wire = running
  send_loop (suc fuel) call send_size wire = elim (send call (length msg - send_size)) [
    | none ↦ socket_error wire
    | some n ↦
        let taken = wire ++ take n (drop send_size msg) in
        let rest = send_loop fuel (suc call) (send_size + n) taken in
        if ltb (send_size + n) (length msg) then rest else returned (send_size + n) taken
  ]

  -- NetWorkClient::SendPacket, on fuel.
  pub send_packet : ℕ → SendResult
  unfolding send_loop
  send_packet fuel = send_loop fuel 0 0 []

-- The receiving side of NetWorkClient; a packet of the pool is kept as its bytes.
pub record NetWorkClient : Type 0 where
  pub recv_buffer : ℕ → ℕ
  pub read_pos : ℕ
  pub write_pos : ℕ
  pub packet_pool : List (List ℕ)

-- What RecvPacket returns: a size, 0 when the other side has closed, -1 for SOCKET_ERROR. `left_open`
-- stands for an access outside of an array, for a length below that of the header, and for a loop
-- that has not ended when the fuel has.
pub data RecvResult : Type 0 where
  received : ℕ → NetWorkClient → RecvResult
  disconnected : RecvResult
  recv_error : RecvResult
  left_open : RecvResult

-- What a call of `::recv` has written: some bytes, at the position that it is given.
module _ (recv : ℕ → ℕ → List ℕ) where
  -- The second loop of NetWorkClient::RecvProcess, for a body of `len` bytes: every call is given
  -- the start of m_dataField. `none` stands for a loop that has not ended when the fuel has.
  pub recv_body : ℕ → ℕ → ℕ → ℕ → (ℕ → ℕ) → Option (ℕ × (ℕ → ℕ))
  unfolding poke
  recv_body len zero call recv_size data_field = none
  recv_body len (suc fuel) call recv_size data_field =
      let bytes = recv call (len - recv_size) in
      let written = poke data_field 0 bytes in
      let rest = recv_body len fuel (suc call) (recv_size + length bytes) written in
      if len == 0
      then some (recv_size, data_field)
      else (if ltb (recv_size + length bytes) len
          then rest
          else some (recv_size + length bytes, written))

  -- The first loop of RecvProcess, for a header that has not come as a whole. Every call is given
  -- the start of m_recvBuffer. The result has the number of calls first.
  pub recv_header : ℕ → ℕ → ℕ → (ℕ → ℕ) → Option (ℕ × ℕ × (ℕ → ℕ))
  unfolding poke
  recv_header zero call recv_size recv_buffer = none
  recv_header (suc fuel) call recv_size recv_buffer =
      let bytes = recv call (packet_header_size - recv_size) in
      let written = poke recv_buffer 0 bytes in
      let rest = recv_header fuel (suc call) (recv_size + length bytes) written in
      if ltb (recv_size + length bytes) packet_header_size
      then rest
      else some (suc call, recv_size + length bytes, written)

  -- RecvProcess behind the first loop. `packet` is what the memory of the local packet has before.
  pub recv_packet_body : ℕ → ℕ → ℕ → (ℕ → ℕ) → NetWorkClient → RecvResult
  unfolding poke peek recv_body
  recv_packet_body fuel call recv_size packet s =
      let write_pos = s.write_pos + recv_size in
      let read_pos = s.read_pos + write_pos in
      let headed = poke packet 0 (peek s.recv_buffer s.read_pos write_pos) in
      let len = headed 0 + 256 * headed 1 in
      let at_end = read_pos == write_pos in
      let body =
        recv_body (len - packet_header_size) fuel call 0 (λ i. headed (packet_header_size + i)) in
      let filled : ℕ × (ℕ → ℕ) → RecvResult = λ (size, data_field).
        received (size + packet_header_size) (record s {
          read_pos = if at_end then 0 else read_pos;
          write_pos = if at_end then 0 else write_pos;
          packet_pool =
              s.packet_pool
              ++ ((peek headed 0 packet_header_size ++ peek data_field 0 (len - packet_header_size))
                  ∷ []);
        }) in
      if leb read_pos packet_buffer_size
      then (if leb packet_header_size len
          then (if leb len (packet_header_size + packet_buffer_size)
              then elim body [ none ↦ left_open | some result ↦ filled result ]
              else left_open)
          else left_open)
      else left_open

  -- NetWorkClient::RecvProcess, for a header of which `recv_bytes` bytes have come.
  pub recv_process : ℕ → ℕ → (ℕ → ℕ) → NetWorkClient → RecvResult
  unfolding recv_header recv_packet_body
  recv_process fuel recv_bytes packet s =
      if ltb recv_bytes packet_header_size
      then elim (recv_header fuel 0 recv_bytes s.recv_buffer) [
        | none ↦ left_open
        | some (call, recv_size, written) ↦
            recv_packet_body fuel call recv_size packet (record s { recv_buffer = written })
      ]
      else recv_packet_body fuel 0 recv_bytes packet s

  -- NetWorkClient::RecvPacket; `first` is what its own call of `::recv` has written, or `none`.
  pub recv_packet : ℕ → Option (List ℕ) → (ℕ → ℕ) → NetWorkClient → RecvResult
  unfolding recv_process poke
  recv_packet fuel none packet s = recv_error
  recv_packet fuel (some []) packet s = disconnected
  recv_packet fuel (some (b ∷ bs)) packet s =
      recv_process fuel (length (b ∷ bs)) packet
        (record s { recv_buffer = poke s.recv_buffer 0 (b ∷ bs) })
