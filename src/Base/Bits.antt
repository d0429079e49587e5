-- ===== src/Base/Bits.antt =====
-- `|` of machine words as arithmetic: it acts on each binary digit alone.
use Prim.Native.Nat.{ℕ, zero, suc, ◌+◌, ◌*◌, ◌/◌, ◌%◌, ◌≤◌, max, digits, bit_or, bit_or-bitwise}
use mathlib.Core.Path.{◌≡◌, refl, ap, ◌∙◌}
use native.Mathlib.Omega.{arith}

abbrev or_digits : ℕ → ℕ → ℕ → ℕ
or_digits count a b = digits (λ y. y) max count a b

-- A count that covers the first number is as good as any other.
or_digits_count : (k l a b : ℕ) → a ≤ k → a ≤ l → or_digits k a b ≡ or_digits l a b
or_digits_count zero zero a b h g = refl
or_digits_count zero (suc l) zero b h g = refl
or_digits_count zero (suc l) (suc a) b h g = absurd (omega arith)
or_digits_count (suc k) zero zero b h g = refl
or_digits_count (suc k) zero (suc a) b h g = absurd (omega arith)
or_digits_count (suc k) (suc l) zero b h g = refl
or_digits_count (suc k) (suc l) (suc a) b h g =
    rw (or_digits_count k l (suc a / 2) (b / 2) (omega arith) (omega arith))

bit_or_split : (a b : ℕ) → bit_or a b ≡ bit_or (a / 2) (b / 2) * 2 + max (a % 2) (b % 2)
bit_or_split zero b = simp bit_or-bitwise (omega arith)
bit_or_split (suc a) b =
    simp bit_or-bitwise
      (omega (arith, or_digits_count a (suc a / 2) (suc a / 2) (b / 2) (omega arith) (omega arith)))

pub bit_or-half : (a b : ℕ) → bit_or a b / 2 ≡ bit_or (a / 2) (b / 2)
bit_or-half a b = omega (arith, bit_or_split a b)

pub bit_or-odd : (a b : ℕ) → bit_or a b % 2 ≡ max (a % 2) (b % 2)
bit_or-odd a b = omega (arith, bit_or_split a b)

or_digits-zero : (k a : ℕ) → a ≤ k → or_digits k a 0 ≡ a
or_digits-zero zero zero h = refl
or_digits-zero zero (suc a) h = absurd (omega arith)
or_digits-zero (suc k) zero h = refl
or_digits-zero (suc k) (suc a) h = omega (arith, or_digits-zero k (suc a / 2) (omega arith))

pub bit_or-zero : (a : ℕ) → bit_or a 0 ≡ a
bit_or-zero a = simp bit_or-bitwise (or_digits-zero a a (omega arith))

-- Division by `d`, made of the divisions by `m` and by `n`.
or-scaled :
    (m n d a b : ℕ)
    → ((x : ℕ) → (x / m) / n ≡ x / d)
    → ((x y : ℕ) → bit_or x y / m ≡ bit_or (x / m) (y / m))
    → ((x y : ℕ) → bit_or x y / n ≡ bit_or (x / n) (y / n))
    → bit_or a b / d ≡ bit_or (a / d) (b / d)
or-scaled m n d a b split f g =
    rw (← split (bit_or a b), f a b, g (a / m) (b / m), split a, split b) refl

or-quarter : (a b : ℕ) → bit_or a b / 4 ≡ bit_or (a / 4) (b / 4)
or-quarter a b = or-scaled 2 2 4 a b (λ x. omega arith) bit_or-half bit_or-half

or-sixteenth : (a b : ℕ) → bit_or a b / 16 ≡ bit_or (a / 16) (b / 16)
or-sixteenth a b = or-scaled 4 4 16 a b (λ x. omega arith) or-quarter or-quarter

pub bit_or-byte : (a b : ℕ) → bit_or a b / 256 ≡ bit_or (a / 256) (b / 256)
bit_or-byte a b = or-scaled 16 16 256 a b (λ x. omega arith) or-sixteenth or-sixteenth

pub bit_or-page : (a b : ℕ) → bit_or a b / 4096 ≡ bit_or (a / 4096) (b / 4096)
bit_or-page a b = or-scaled 256 16 4096 a b (λ x. omega arith) bit_or-byte or-sixteenth

-- Flags below the page size leave the page number as it is.
pub bit_or-flags : (a flags : ℕ) → flags ≤ 4095 → bit_or a flags / 4096 ≡ a / 4096
bit_or-flags a flags h =
    let e : flags / 4096 ≡ 0 = omega arith in
    bit_or-page a flags ∙ (ap (λ (t : ℕ). bit_or (a / 4096) t) e ∙ bit_or-zero (a / 4096))
