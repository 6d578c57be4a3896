-- ===== src/Net/Ring/Linear.antt =====
-- The ring buffer while it does not wrap, and what happens when it does.
use network_omok.Base.{ℕ, ◌+◌, ◌-◌, ◌≤◌, ◌<◌, ◌≡◌, ◌⊎◌, true, some, arith}
use network_omok.Net.Ring.{RingBuffer, ringbuffer_size, end_pos, allocate_to_buffer, release_buffer}

-- The bytes in use are those between the read and the write position.
pub record IsLinear (r : RingBuffer) : Type 0 where
  pub created : r.is_create ≡ true
  pub ordered : r.read_pos + r.used_buffer_size ≡ r.write_pos
  pub inside : r.write_pos ≤ end_pos

-- A length that fits behind the write position: the bytes handed out are behind all those in use
-- and inside of the buffer, and the memory stays.
pub allocate_to_buffer-IsLinear :
    (len : ℕ) (r : RingBuffer)
    → IsLinear r
    → r.write_pos + len ≤ end_pos
    → (t : RingBuffer) × (allocate_to_buffer len r ≡ (some r.write_pos, t))
      × IsLinear t
      × (t.read_pos ≡ r.read_pos)
      × (t.write_pos ≡ r.write_pos + len)
      × (t.memory ≡ r.memory)
unfolding allocate_to_buffer
allocate_to_buffer-IsLinear len r v fits =
    let c = v.created in
    let o = v.ordered in
    let i = v.inside in
    (
      (allocate_to_buffer len r).1,
      ground arith,
      record { created = ground arith; ordered = ground arith; inside = ground arith },
      ground arith,
      ground arith,
      ground arith,
    )

-- A release of bytes in use keeps the buffer linear; the rest of them is still there, from the
-- position that it returns.
pub release_buffer-IsLinear :
    (n : ℕ) (r : RingBuffer)
    → IsLinear r
    → n ≤ r.used_buffer_size
    → (t : RingBuffer) × (release_buffer n r ≡ (some t.read_pos, t))
      × IsLinear t
      × (t.used_buffer_size + n ≡ r.used_buffer_size)
      × ((t.used_buffer_size ≡ 0) × (t.read_pos ≡ 0) ⊎ (t.read_pos ≡ r.read_pos + n))
unfolding release_buffer
release_buffer-IsLinear n r v enough =
    let c = v.created in
    let o = v.ordered in
    let i = v.inside in
    (
      (release_buffer n r).1,
      ground arith,
      record { created = ground arith; ordered = ground arith; inside = ground arith },
      ground arith,
      ground arith,
    )

-- A length that fits into the buffer but not behind the write position, where the front has room:
-- the bytes come from the front. The read position does not know: the release of all bytes in use
-- succeeds and leaves it behind the last byte of the buffer.
pub wrap_then_release_overruns :
    (len : ℕ) (r : RingBuffer)
    → IsLinear r
    → r.used_buffer_size + len ≤ ringbuffer_size
    → end_pos < r.write_pos + len
    → (end_pos - r.write_pos) + len < r.read_pos
    → (t u : RingBuffer) × (allocate_to_buffer len r ≡ (some (end_pos - r.write_pos), t))
      × (release_buffer t.used_buffer_size t ≡ (some u.read_pos, u))
      × (u.used_buffer_size ≡ 0)
      × (end_pos < u.read_pos)
unfolding allocate_to_buffer release_buffer
wrap_then_release_overruns len r v fits wraps room =
    let c = v.created in
    let o = v.ordered in
    let i = v.inside in
    let t = (allocate_to_buffer len r).1 in
    let u = (release_buffer t.used_buffer_size t).1 in
    (t, u, ground arith, ground arith, ground arith, ground arith)

-- A place of `len` bytes inside of the buffer, away from the bytes between the two positions.
abbrev pub IsFree : ℕ → RingBuffer → ℕ → Type 0
IsFree len r p =
    (p + len ≤ end_pos) × ((i : ℕ) → r.read_pos ≤ i → i < r.write_pos → (i < p) ⊎ (p + len ≤ i))

-- Nullptr is right: the capacity would be exceeded, or there is no place, neither behind the write
-- position nor between the front, to which the bytes behind the write position go, and the read
-- position.
abbrev pub IsRefused : ℕ → RingBuffer → Type 0
IsRefused len r =
    (ringbuffer_size < r.used_buffer_size + len)
    ⊎ ((end_pos < r.write_pos + len) × (r.read_pos ≤ end_pos - r.write_pos + len))
