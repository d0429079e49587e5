-- ===== src/PhysAlloc/Bits.antt =====
-- The bits of a byte, checked over all 256 values.
use quad_os.Base.{
  ℕ, zero, suc, ◌+◌, ◌<◌, Bool, true, false, not, ◌≡◌, refl, ◌==◌, ==_iff, if◌then◌else◌, arith,
}
use quad_os.PhysAlloc.{bit, with_bit}

-- The test passes at every number under the bound.
each_under : (ℕ → Bool) → ℕ → Bool
each_under test zero = true
each_under test (suc k) = if test k then each_under test k else false

each_under-at :
    (test : ℕ → Bool) (bound i : ℕ) → i < bound → each_under test bound ≡ true → test i ≡ true
unfolding each_under
each_under-at test zero i small passed = elim small [ ]
each_under-at test (suc k) i small passed = ground (arith, each_under-at test k i)

-- How many of the bits below `k` are set.
unfoldable pub ones_below : ℕ → ℕ → ℕ
ones_below byte zero = 0
ones_below byte (suc k) = (if bit byte k then 1 else 0) + ones_below byte k

abbrev same : Bool → Bool → Bool
same true b = b
same false b = not b

same→eq : (a b : Bool) → same a b ≡ true → a ≡ b
same→eq a b h = ground arith

abbrev bit_ok : Bool → ℕ → ℕ → ℕ → Bool
bit_ok u byte k j = same (bit (with_bit u byte k) j) (if k == j then u else bit byte j)

bit_table :
    (u : Bool) → each_under (λ b. each_under (λ k. each_under (bit_ok u b k) 8) 8) 256 ≡ true
unfolding each_under with_bit
bit_table true = refl
bit_table false = refl

module _ (u : Bool) (byte k : ℕ) (hb : byte < 256) (hk : k < 8) where
  -- Writing one bit leaves the seven others.
  pub bit-with_bit :
      (j : ℕ) → j < 8 → bit (with_bit u byte k) j ≡ (if k == j then u else bit byte j)
  bit-with_bit j hj = same→eq _ _ (
      each_under-at (bit_ok u byte k) 8 j hj (
        each_under-at (λ i. each_under (bit_ok u byte i) 8) 8 k hk
          (each_under-at (λ b. each_under (λ i. each_under (bit_ok u b i) 8) 8) 256 byte hb
            (bit_table u))))

pub with_bit-lt : (u : Bool) (byte k : ℕ) → with_bit u byte k < 256
unfolding with_bit
with_bit-lt u byte k = omega arith

abbrev count_ok : Bool → ℕ → ℕ → Bool
count_ok u byte k =
    (ones_below (with_bit u byte k) 8 + (if bit byte k then 1 else 0))
    == ((if u then 1 else 0) + ones_below byte 8)

count_table : (u : Bool) → each_under (λ b. each_under (count_ok u b) 8) 256 ≡ true
unfolding each_under with_bit ones_below
count_table true = refl
count_table false = refl

-- The number of set bits counts the written bit instead of the old one.
pub ones-with_bit :
    (u : Bool) (byte k : ℕ)
    → byte < 256
    → k < 8
    → ones_below (with_bit u byte k) 8 + (if bit byte k then 1 else 0)
      ≡ (if u then 1 else 0) + ones_below byte 8
ones-with_bit u byte k hb hk = (==_iff _ _).0 (
    each_under-at (count_ok u byte) 8 k hk
      (each_under-at (λ b. each_under (count_ok u b) 8) 256 byte hb (count_table u)))

abbrev undo_ok : ℕ → ℕ → Bool
undo_ok byte k = if bit byte k then true else with_bit false (with_bit true byte k) k == byte

undo_table : each_under (λ b. each_under (undo_ok b) 8) 256 ≡ true
unfolding each_under with_bit
undo_table = refl

-- Clearing a bit that was clear before it was set gives the old byte.
pub with_bit-with_bit :
    (byte k : ℕ)
    → byte < 256
    → k < 8
    → bit byte k ≡ false
    → with_bit false (with_bit true byte k) k ≡ byte
with_bit-with_bit byte k hb hk clear = (==_iff _ _).0 (
    rw clear at (
      each_under-at (undo_ok byte) 8 k hk
        (each_under-at (λ b. each_under (undo_ok b) 8) 256 byte hb undo_table)))

full_table : each_under (bit 0xff) 8 ≡ true
unfolding each_under
full_table = refl

-- In a byte of 0xff every bit is set.
pub bit-full : (j : ℕ) → j < 8 → bit 0xff j ≡ true
bit-full j h = each_under-at (bit 0xff) 8 j h full_table
