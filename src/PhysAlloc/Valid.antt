-- ===== src/PhysAlloc/Valid.antt =====
-- kernel/physalloc.c: the invariant of the allocator's state.
use quad_os.Base.{
  ℕ, zero, suc, ◌+◌, ◌*◌, ◌≤◌, ◌<◌, ◌≡◌, refl, sym, Bool, List, [], ◌∷◌, if◌then◌else◌, length, set,
  replicate, All, All-set, All-get_or, All-replicate, length-replicate, arith,
}
use quad_os.PhysAlloc.{Pmm, bitmap_bytes, pmm_init, bit, with_bit, byte_at, scan_end}
use quad_os.PhysAlloc.Bits.{ones_below, ones-with_bit, with_bit-lt}

abbrev pub IsByte : ℕ → Type 0
IsByte b = b < 256

-- The frames that a bitmap marks as used.
unfoldable pub used_frames : List ℕ → ℕ
used_frames [] = 0
used_frames (b ∷ bs) = ones_below b 8 + used_frames bs

pub record IsValid (p : Pmm) : Type 0 where
  pub bytes : All IsByte p.bitmap
  pub small : length p.bitmap ≤ bitmap_bytes
  pub scan_in : scan_end p ≤ length p.bitmap
  pub counted : p.total_allocated ≡ used_frames p.bitmap

pub byte_at-lt : (bitmap : List ℕ) (b : ℕ) → All IsByte bitmap → byte_at bitmap b < 256
unfolding byte_at
byte_at-lt bitmap b h = All-get_or IsByte bitmap b 0 h (omega arith)

ones_below-le : (byte k : ℕ) → ones_below byte k ≤ k
unfolding ones_below
ones_below-le byte zero = omega arith
ones_below-le byte (suc k) = ground (arith, ones_below-le byte k)

-- A bitmap marks at most eight frames for each byte, so the count fits 32 bits.
pub used_frames-le : (bitmap : List ℕ) → used_frames bitmap ≤ length bitmap * 8
unfolding used_frames
used_frames-le [] = omega arith
used_frames-le (b ∷ bs) = omega (arith, used_frames-le bs, ones_below-le b 8)

-- One write into the bitmap counts the new bit instead of the old one.
pub used_frames-set :
    (u : Bool) (bitmap : List ℕ) (b k : ℕ)
    → All IsByte bitmap
    → b < length bitmap
    → k < 8
    → used_frames (set bitmap b (with_bit u (byte_at bitmap b) k))
        + (if bit (byte_at bitmap b) k then 1 else 0)
      ≡ (if u then 1 else 0) + used_frames bitmap
unfolding used_frames byte_at
used_frames-set u [] b k h lt hk = elim lt [ ]
used_frames-set u (x ∷ xs) zero k h lt hk = omega (arith, ones-with_bit u x k h.0 hk)
used_frames-set u (x ∷ xs) (suc b) k h lt hk =
    omega (arith, used_frames-set u xs b k h.1 (omega arith) hk)

-- The bytes, the length and so the other parts of the invariant survive a write.
pub All-write :
    (u : Bool) (bitmap : List ℕ) (b k : ℕ)
    → All IsByte bitmap
    → All IsByte (set bitmap b (with_bit u (byte_at bitmap b) k))
All-write u bitmap b k h = All-set IsByte bitmap b _ h (with_bit-lt u _ k)

used_frames-replicate : (n : ℕ) → used_frames (replicate n 0) ≡ 0
unfolding used_frames replicate ones_below
used_frames-replicate zero = refl
used_frames-replicate (suc n) = omega (arith, used_frames-replicate n)

-- After `pmm_init` the invariant holds, if the bytes that an allocation scans are in the bitmap.
pub pmm_init-IsValid :
    (mem_low mem_high : ℕ)
    → scan_end (pmm_init mem_low mem_high) ≤ bitmap_bytes
    → IsValid (pmm_init mem_low mem_high)
unfolding pmm_init
pmm_init-IsValid mem_low mem_high h = record {
  bytes = All-replicate IsByte bitmap_bytes 0 (omega arith);
  small = omega (arith, length-replicate {A = ℕ} bitmap_bytes 0);
  scan_in = omega (arith, h, length-replicate {A = ℕ} bitmap_bytes 0);
  counted = sym (used_frames-replicate bitmap_bytes);
}
