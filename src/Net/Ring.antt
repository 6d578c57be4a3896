-- ===== src/Net/Ring.antt =====
-- Project/NetLib/RingBuffer.cpp and RingBuffer.h. A position is the distance of the pointer from
-- m_pBeginPos, and the memory is a function of the position.
pub mod Linear
use network_omok.Base.{
  ℕ, ◌+◌, ◌-◌, Bool, true, false, Option, none, some, add32, sub32, ltb, leb, ◌==◌, if◌then◌else◌,
}

abbrev pub ringbuffer_size : ℕ
ringbuffer_size = 20480

pub record RingBuffer : Type 0 where
  pub memory : ℕ → ℕ
  pub read_pos : ℕ
  pub write_pos : ℕ
  pub used_buffer_size : ℕ
  pub is_create : Bool

-- RingBuffer::Create
abbrev pub create : RingBuffer
create = record {
  memory = λ i. 0;
  read_pos = 0;
  write_pos = 0;
  used_buffer_size = 0;
  is_create = true;
}

-- m_pEndPos
abbrev pub end_pos : ℕ
end_pos = ringbuffer_size - 1

-- CopyMemory(begin, begin + from, n)
abbrev copy_front : (ℕ → ℕ) → ℕ → ℕ → ℕ → ℕ
copy_front memory from n i = if ltb i n then memory (from + i) else memory i

-- The branch of AllocateToBuffer for a length that is too long for the rest of the buffer.
allocate_front : ℕ → RingBuffer → Option ℕ × RingBuffer
allocate_front len r =
    let copy_len = end_pos - r.write_pos in
    let moved : RingBuffer = record r {
      memory = copy_front r.memory r.write_pos copy_len;
      write_pos = copy_len + len;
      used_buffer_size = add32 r.used_buffer_size len;
    } in
    if leb r.read_pos (copy_len + len) then (none, r) else (some copy_len, moved)

-- RingBuffer::AllocateToBuffer; `none` is nullptr, else the position of the allocated bytes.
unfoldable pub allocate_to_buffer : ℕ → RingBuffer → Option ℕ × RingBuffer
unfolding allocate_front
allocate_to_buffer len r =
    let after : RingBuffer = record r {
      write_pos = r.write_pos + len;
      used_buffer_size = add32 r.used_buffer_size len;
    } in
    if r.is_create
    then (if ltb ringbuffer_size (add32 r.used_buffer_size len)
        then (none, r)
        else (if leb len (end_pos - r.write_pos)
            then (some r.write_pos, after)
            else allocate_front len r))
    else (none, r)

-- The positions after a release: both go to the front when nothing is left.
abbrev pub rewound : RingBuffer → RingBuffer
rewound r = if r.read_pos == r.write_pos then record r { read_pos = 0; write_pos = 0 } else r

-- RingBuffer::ReleaseBuffer; `none` is nullptr, else the new read position.
unfoldable pub release_buffer : ℕ → RingBuffer → Option ℕ × RingBuffer
release_buffer n r =
    let moved = rewound (record r { read_pos = r.read_pos + n }) in
    if r.is_create
    then (if ltb r.used_buffer_size n
        then (none, r)
        else (some moved.read_pos, record moved { used_buffer_size = sub32 r.used_buffer_size n }))
    else (none, r)
