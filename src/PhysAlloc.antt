-- ===== src/PhysAlloc.antt =====
-- kernel/physalloc.c: the allocator of physical page frames, a bitmap with one bit for each frame.
pub mod Bits
pub mod Scan
pub mod Valid
pub mod Alloc
pub mod Free
pub mod RoundTrip
mod Examples
use quad_os.Base.{
  ℕ, zero, suc, ◌+◌, ◌-◌, ◌*◌, ◌/◌, ◌%◌, ◌^◌, bit_and, bit_xor, Bool, true, false, not, List,
  Option, none, some, ◌==◌, if◌then◌else◌, get_or, set, replicate, sub32, add32, mul32, ceil_div,
  page_size, Outcome, ok, panic, ◌>>=◌, ◌>>◌, kernel_assert,
}

-- NUM_PAGE_FRAMES / 8
abbrev pub bitmap_bytes : ℕ
bitmap_bytes = 0x100000000 / 0x1000 / 8 / 8

pub record Pmm : Type 0 where
  pub bitmap : List ℕ
  pub page_frame_min : ℕ
  pub page_frame_max : ℕ
  pub total_allocated : ℕ

unfoldable pub pmm_init : ℕ → ℕ → Pmm
pmm_init mem_low mem_high = record {
  bitmap = replicate bitmap_bytes 0;
  page_frame_min = ceil_div mem_low page_size;
  page_frame_max = mem_high / page_size;
  total_allocated = 0;
}

-- `byte >> i & 1`
abbrev pub bit : ℕ → ℕ → Bool
bit byte i = byte / 2 ^ i % 2 == 1

-- `byte ^= (-used ^ byte) & (1 << k)`, stored in a `uint8_t`: `-used` is the `int` 0 or -1.
unfoldable pub with_bit : Bool → ℕ → ℕ → ℕ
with_bit used byte k =
    bit_xor byte (bit_and (bit_xor (if used then 0xffff_ffff else 0) byte) (2 ^ k)) % 256

-- A read past the bitmap gives 0; `IsValid` rules it out for the allocator's own scan.
unfoldable pub byte_at : List ℕ → ℕ → ℕ
byte_at bitmap b = get_or bitmap b 0

unfoldable pub is_pf_used : Pmm → ℕ → Bool
unfolding byte_at
is_pf_used p pf_index = bit (byte_at p.bitmap (pf_index / 8)) (pf_index % 8)

unfoldable pub set_pf_used : Pmm → ℕ → Bool → Pmm
unfolding byte_at
set_pf_used p pf_index used = record p {
  bitmap =
      set p.bitmap (pf_index / 8) (with_bit used (byte_at p.bitmap (pf_index / 8)) (pf_index % 8));
}

-- The inner loop: `rounds` bits are left, from bit `i` on.
unfoldable pub free_bit : ℕ → ℕ → ℕ → Option ℕ
free_bit byte i zero = none
free_bit byte i (suc rounds) =
    let rest = free_bit byte (i + 1) rounds in if not (bit byte i) then some i else rest

-- The outer loop: `rounds` bytes are left, from byte `b` on. The result is the byte and the bit.
unfoldable pub free_slot : List ℕ → ℕ → ℕ → Option (ℕ × ℕ)
unfolding byte_at
free_slot bitmap b zero = none
free_slot bitmap b (suc rounds) =
    let rest = free_slot bitmap (b + 1) rounds in
    let byte = byte_at bitmap b in
    if byte == 0xff then rest else elim (free_bit byte 0 8) [ some i ↦ some (b, i) | none ↦ rest ]

-- `start` and `end` of the scan; the subtraction is unsigned.
abbrev pub scan_start : Pmm → ℕ
scan_start p = p.page_frame_min / 8 + (if p.page_frame_min % 8 == 0 then 0 else 1)

abbrev pub scan_end : Pmm → ℕ
scan_end p = sub32 (p.page_frame_max / 8) (if p.page_frame_max % 8 == 0 then 0 else 1)

-- What is done with a free slot; `assert_msg(false, "OUT OF MEMORY")` where there is none.
unfoldable pub take_slot : Pmm → Option (ℕ × ℕ) → Outcome (ℕ × Pmm)
unfolding byte_at with_bit
take_slot p none = panic
take_slot p (some (b, i)) = ok (
  mul32 (b * 8 + i) page_size,
  record p {
    bitmap = set p.bitmap b (with_bit true (byte_at p.bitmap b) i);
    total_allocated = add32 p.total_allocated 1;
  },
)

unfoldable pub pmm_alloc_pageframe : Pmm → Outcome (ℕ × Pmm)
unfolding take_slot
pmm_alloc_pageframe p = take_slot p (free_slot p.bitmap (scan_start p) (scan_end p - scan_start p))

unfoldable pub pmm_free_pageframe : ℕ → Pmm → Outcome Pmm
unfolding is_pf_used set_pf_used kernel_assert
pmm_free_pageframe addr p = do
  let pf_index = addr / page_size
  kernel_assert (is_pf_used p pf_index)
  let p' = set_pf_used p pf_index false
  ok (record p' { total_allocated = sub32 p.total_allocated 1 })

unfoldable pub pmm_get_total_allocated_pages : Pmm → ℕ
pmm_get_total_allocated_pages p = p.total_allocated
