-- ===== src/PhysAlloc/Alloc.antt =====
-- kernel/physalloc.c, `pmm_alloc_pageframe`: which frame it hands out, and when it gives up.
use quad_os.Base.{
  ℕ, ◌+◌, ◌-◌, ◌*◌, ◌/◌, ◌%◌, ◌≤◌, ◌<◌, ◌≡◌, ◌≢◌, ◌↔◌, inl, inr, refl, Bool, true, false, Option,
  some, if◌then◌else◌, ◌==◌, ==_iff, Bool-cases, Option-cases, length, get_or-set_self,
  get_or-set_ne, set, length-set, u32_mod, page_size, ok, panic, ok-injective, Delivers, subst,
  arith,
}
use quad_os.PhysAlloc.{
  Pmm, bit, with_bit, byte_at, is_pf_used, free_slot, take_slot, scan_start, scan_end,
  pmm_alloc_pageframe,
}
use quad_os.PhysAlloc.Bits.{bit-with_bit}
use quad_os.PhysAlloc.Scan.{frame_bit, free_slot-some, free_slot-below, free_slot-none}
use quad_os.PhysAlloc.Valid.{IsValid, byte_at-lt, used_frames-le, used_frames-set, All-write}

-- Writing the bit of frame `f` changes that frame and no other.
pub frame_bit-set :
    (u : Bool) (p : Pmm) (f g : ℕ)
    → IsValid p
    → f / 8 < length p.bitmap
    → frame_bit (set p.bitmap (f / 8) (with_bit u (byte_at p.bitmap (f / 8)) (f % 8))) g
      ≡ (if f == g then u else frame_bit p.bitmap g)
unfolding byte_at
frame_bit-set u p f g v lt = elim (Bool-cases (f / 8 == g / 8)) [
  | inl e ↦
      let e' = (==_iff (f / 8) (g / 8)).0 e in
      rw
        (
          ← e',
          get_or-set_self p.bitmap (f / 8) (with_bit u (byte_at p.bitmap (f / 8)) (f % 8)) 0 lt,
        )
        (ground (
          arith,
          bit-with_bit u (byte_at p.bitmap (f / 8)) (f % 8) (byte_at-lt p.bitmap (f / 8) v.bytes)
              (omega arith) (g % 8) (omega arith),
        ))
  | inr ne ↦
      let ne' : f / 8 ≢ g / 8 = ground arith in
      rw
        (get_or-set_ne p.bitmap (f / 8) (g / 8) (with_bit u (byte_at p.bitmap (f / 8)) (f % 8)) 0
          ne')
        (ground arith)
]

-- The abstract view of one allocation from `p` to `q`.
pub record Allocated (p : Pmm) (addr : ℕ) (q : Pmm) : Type 0 where
  pub aligned : addr ≡ addr / page_size * page_size
  pub in_range : (scan_start p * 8 ≤ addr / page_size) × (addr / page_size < scan_end p * 8)
  pub was_free : is_pf_used p (addr / page_size) ≡ false
  pub lowest : (f : ℕ) → scan_start p * 8 ≤ f → f < addr / page_size → is_pf_used p f ≡ true
  pub marked : (f : ℕ) → is_pf_used q f ≡ (if addr / page_size == f then true else is_pf_used p f)
  pub counted : q.total_allocated ≡ p.total_allocated + 1
  pub limits : (q.page_frame_min ≡ p.page_frame_min) × (q.page_frame_max ≡ p.page_frame_max)

abbrev pub scan : Pmm → Option (ℕ × ℕ)
scan p = free_slot p.bitmap (scan_start p) (scan_end p - scan_start p)

module _ (p : Pmm) (b i : ℕ) (v : IsValid p) (found : scan p ≡ some (b, i)) where
  pub slot :
      (scan_start p ≤ b)
      × (b < scan_end p)
      × (i < 8)
      × (b < length p.bitmap)
      × (bit (byte_at p.bitmap b) i ≡ false)
  slot =
      let s = free_slot-some p.bitmap (scan_start p) (scan_end p - scan_start p) b i found in
      (omega arith, omega arith, omega arith, omega arith, s.3)

  -- The address does not wrap, and its frame is the slot.
  pub frame_of_slot :
      ((b * 8 + i) * page_size % u32_mod / page_size ≡ b * 8 + i)
      × ((b * 8 + i) / 8 ≡ b)
      × ((b * 8 + i) % 8 ≡ i)
  frame_of_slot = omega (arith, slot, v.small)

  abbrev pub taken : Pmm
  taken = record p {
    bitmap = set p.bitmap b (with_bit true (byte_at p.bitmap b) i);
    total_allocated = (p.total_allocated + 1) % u32_mod;
  }

  frame_bit-taken :
      (f : ℕ) → frame_bit taken.bitmap f ≡ (if b * 8 + i == f then true else frame_bit p.bitmap f)
  frame_bit-taken f =
      let h = frame_bit-set true p (b * 8 + i) f v (omega (arith, slot)) in
      rw (frame_of_slot.1, frame_of_slot.2) at h

  pub taken-counted : taken.total_allocated ≡ p.total_allocated + 1
  taken-counted = omega (arith, v.counted, used_frames-le p.bitmap, v.small)

  pub taken-Allocated : Allocated p ((b * 8 + i) * page_size % u32_mod) taken
  unfolding is_pf_used
  taken-Allocated = record {
    aligned = omega (arith, frame_of_slot);
    in_range = (omega (arith, slot, frame_of_slot), omega (arith, slot, frame_of_slot));
    was_free = rw (frame_of_slot.0, frame_of_slot.1, frame_of_slot.2) slot.4;
    lowest = λ f lo hi.
        free_slot-below p.bitmap (scan_start p) _ b i f found lo (omega (arith, frame_of_slot));
    marked = rw frame_of_slot.0 frame_bit-taken;
    counted = taken-counted;
    limits = (refl, refl);
  }

  pub taken-IsValid : IsValid taken
  taken-IsValid = record {
    bytes = All-write true p.bitmap b i v.bytes;
    small = omega (arith, v.small, length-set p.bitmap b (with_bit true (byte_at p.bitmap b) i));
    scan_in =
        omega (arith, v.scan_in, length-set p.bitmap b (with_bit true (byte_at p.bitmap b) i));
    counted =
        ground (arith, taken-counted, v.counted, slot, used_frames-set true p.bitmap b i v.bytes);
  }

pub alloc-take_slot : (p : Pmm) → pmm_alloc_pageframe p ≡ take_slot p (scan p)
unfolding pmm_alloc_pageframe
alloc-take_slot p = refl

-- From a valid state an allocation that returns has taken the lowest free frame of the scanned range,
-- marked that frame alone and counted it, and the state is valid again.
pub alloc-Allocated :
    (p : Pmm) {addr : ℕ} {q : Pmm}
    → IsValid p
    → pmm_alloc_pageframe p ≡ ok (addr, q)
    → Allocated p addr q × IsValid q
unfolding take_slot
alloc-Allocated p v h = elim (Option-cases (scan p)) [
  | inl e ↦ let h' = rw (alloc-take_slot p, e) at h in absurd (cc h')
  | inr ((b, i), e) ↦
      let h' = rw (alloc-take_slot p, e) at h in
      subst (λ (t : ℕ × Pmm). Allocated p t.0 t.1 × IsValid t.1) (ok-injective h')
        (taken-Allocated p b i v e, taken-IsValid p b i v e)
]

-- From a valid state, allocation stops the kernel exactly when every frame of the scanned range is in use.
pub alloc_panics_iff :
    (p : Pmm)
    → IsValid p
    → (pmm_alloc_pageframe p ≡ panic)
      ↔ ((f : ℕ) → scan_start p * 8 ≤ f → f < scan_end p * 8 → is_pf_used p f ≡ true)
unfolding is_pf_used take_slot
alloc_panics_iff p v = elim (Option-cases (scan p)) [
  | inl e ↦ (
    λ h f lo hi. free_slot-none p.bitmap (scan_start p) _ f e lo (omega arith),
    λ h. rw (alloc-take_slot p, e) refl,
  )
  | inr ((b, i), e) ↦ (
    λ h. let h' = rw (alloc-take_slot p, e) at h in absurd (cc h'),
    λ h.
        let a = taken-Allocated p b i v e in
        absurd (cc (a.was_free, h _ a.in_range.0 a.in_range.1)),
  )
]

-- An allocation ends: it returns or stops the machine.
pub alloc-steady : (p : Pmm) → Delivers Unit (pmm_alloc_pageframe p) (λ _. Unit)
unfolding take_slot
alloc-steady p = elim (Option-cases (scan p)) [
  | inl e ↦ rw (alloc-take_slot p, e) tt
  | inr (s, e) ↦ rw (alloc-take_slot p, e) tt
]
