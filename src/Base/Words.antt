-- ===== src/Base/Words.antt =====
-- The unsigned machine integers of the source: `uInt32` and `uInt16` wrap at 2 ^ 32 and 2 ^ 16.
use Prim.Native.Nat.{ℕ, ◌+◌, ◌-◌, ◌%◌, ◌^◌}

abbrev pub u32_mod : ℕ
u32_mod = 2 ^ 32

abbrev u16_mod : ℕ
u16_mod = 2 ^ 16

-- `a + b` and `a - b` on uInt32, for `a` and `b` in range.
abbrev pub add32 : ℕ → ℕ → ℕ
add32 a b = (a + b) % u32_mod

abbrev pub sub32 : ℕ → ℕ → ℕ
sub32 a b = (a + u32_mod - b) % u32_mod

-- The same on uInt16.
abbrev pub add16 : ℕ → ℕ → ℕ
add16 a b = (a + b) % u16_mod

abbrev pub sub16 : ℕ → ℕ → ℕ
sub16 a b = (a + u16_mod - b % u16_mod) % u16_mod
