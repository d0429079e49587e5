-- ===== src/PhysAlloc/Free.antt =====
-- kernel/physalloc.c, `pmm_free_pageframe`: what it releases, and that it undoes an allocation.
use quad_os.Base.{
  ℕ, ◌+◌, ◌-◌, get_or_beyond, dec_le, ◌/◌, ◌%◌, ◌<◌, ◌≡◌, ◌↔◌, inl, inr, refl, true, false,
  if◌then◌else◌, ◌==◌, Bool-cases, length, set, length-set, u32_mod, page_size, ok, panic, arith,
}
use quad_os.PhysAlloc.{Pmm, bit, with_bit, byte_at, is_pf_used, pmm_free_pageframe}
use quad_os.PhysAlloc.Scan.{frame_bit}
use quad_os.PhysAlloc.Valid.{IsValid, used_frames, used_frames-le, used_frames-set, All-write}
use quad_os.PhysAlloc.Alloc.{frame_bit-set}

-- The abstract view of the release of one frame.
pub record Freed (p : Pmm) (addr : ℕ) (q : Pmm) : Type 0 where
  pub was_used : is_pf_used p (addr / page_size) ≡ true
  pub cleared : (f : ℕ) → is_pf_used q f ≡ (if addr / page_size == f then false else is_pf_used p f)
  pub counted : q.total_allocated + 1 ≡ p.total_allocated
  pub limits : (q.page_frame_min ≡ p.page_frame_min) × (q.page_frame_max ≡ p.page_frame_max)

-- Freeing a frame that is not in use stops the kernel, whatever the address.
pub free_panics_iff :
    (p : Pmm) (addr : ℕ)
    → (pmm_free_pageframe addr p ≡ panic) ↔ (is_pf_used p (addr / page_size) ≡ false)
unfolding pmm_free_pageframe
free_panics_iff p addr = elim (Bool-cases (is_pf_used p (addr / page_size))) [
  | inl e ↦ ground arith
  | inr e ↦ ground arith
]

-- A frame past the bitmap is never in use.
used-inside : (p : Pmm) (f : ℕ) → is_pf_used p f ≡ true → f / 8 < length p.bitmap
unfolding is_pf_used dec_le
used-inside p f h = elim (dec_le (length p.bitmap) (f / 8)) [
  | yes far ↦ absurd (clear (rw (get_or_beyond p.bitmap (f / 8) 0 far) at h))
  | no near ↦ omega arith
]
  where
    clear : bit 0 (f % 8) ≡ true → ⊥
    clear e = ground arith

module _ (p : Pmm) (addr : ℕ) (v : IsValid p) (used : is_pf_used p (addr / page_size) ≡ true) where
  abbrev pub freed : Pmm
  freed = record p {
    bitmap =
        set p.bitmap (addr / page_size / 8)
          (with_bit false (byte_at p.bitmap (addr / page_size / 8)) (addr / page_size % 8));
    total_allocated = (p.total_allocated + u32_mod - 1) % u32_mod;
  }

  pub free-freed : pmm_free_pageframe addr p ≡ ok freed
  unfolding pmm_free_pageframe
  free-freed = rw used refl

  frame_bit-freed :
      (f : ℕ)
      → frame_bit freed.bitmap f ≡ (if addr / page_size == f then false else frame_bit p.bitmap f)
  frame_bit-freed f = frame_bit-set false p (addr / page_size) f v (used-inside p _ used)

  freed-counted : freed.total_allocated + 1 ≡ used_frames p.bitmap
  unfolding is_pf_used
  freed-counted = ground (
    arith,
    v.counted,
    v.small,
    used,
    used_frames-le p.bitmap,
    used_frames-set false p.bitmap (addr / page_size / 8) (addr / page_size % 8) v.bytes
        (used-inside p _ used),
  )

  freed-Freed : Freed p addr freed
  unfolding is_pf_used
  freed-Freed = record {
    was_used = used;
    cleared = frame_bit-freed;
    counted = omega (arith, freed-counted, v.counted);
    limits = (refl, refl);
  }

  freed-IsValid : IsValid freed
  unfolding is_pf_used
  freed-IsValid = record {
    bytes = All-write false p.bitmap _ _ v.bytes;
    small = rw (length-set p.bitmap _ _) v.small;
    scan_in = rw (length-set p.bitmap _ _) v.scan_in;
    counted = ground (
      arith,
      freed-counted,
      used,
      used_frames-set false p.bitmap (addr / page_size / 8) (addr / page_size % 8) v.bytes
          (used-inside p _ used),
    );
  }

-- From a valid state, freeing a used frame returns, clears that frame alone, lowers the count by one and keeps the
-- invariant.
pub free-Freed :
    (p : Pmm) (addr : ℕ)
    → IsValid p
    → is_pf_used p (addr / page_size) ≡ true
    → (q : Pmm) × (pmm_free_pageframe addr p ≡ ok q) × Freed p addr q × IsValid q
free-Freed p addr v used = (
  freed p addr v used,
  free-freed p addr v used,
  freed-Freed p addr v used,
  freed-IsValid p addr v used,
)
