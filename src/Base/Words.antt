-- ===== src/Base/Words.antt =====
-- Machine words as native numbers: `uint32_t` arithmetic wraps, a shift is a division.
use Prim.Native.Nat.{ℕ, ◌+◌, ◌-◌, ◌*◌, ◌/◌, ◌%◌, ◌^◌}

abbrev pub u32_mod : ℕ
u32_mod = 2 ^ 32

abbrev pub mul32 : ℕ → ℕ → ℕ
mul32 x y = x * y % u32_mod

abbrev pub add32 : ℕ → ℕ → ℕ
add32 x y = (x + y) % u32_mod

-- The modulus is added first, since ℕ has no number below 0.
abbrev pub sub32 : ℕ → ℕ → ℕ
sub32 x y = (x + u32_mod - y) % u32_mod

-- The macro CEIL_DIV of util.h, over `uint32_t`.
abbrev pub ceil_div : ℕ → ℕ → ℕ
ceil_div a b = sub32 (add32 a b) 1 / b

abbrev pub page_size : ℕ
page_size = 0x1000
