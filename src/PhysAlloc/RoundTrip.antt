-- ===== src/PhysAlloc/RoundTrip.antt =====
-- kernel/physalloc.c: freeing what was just allocated restores the allocator's state.
use quad_os.Base.{
  ℕ, ◌+◌, ◌*◌, ◌/◌, ◌%◌, ◌≡◌, inl, inr, ◌∙◌, subst, true, set-set, set-get_or, get_or-set_self,
  u32_mod, page_size, ok, ok-injective, Option-cases, some, arith,
}
use quad_os.PhysAlloc.{
  Pmm, with_bit, byte_at, is_pf_used, take_slot, pmm_alloc_pageframe, pmm_free_pageframe,
}
use quad_os.PhysAlloc.Bits.{with_bit-with_bit}
use quad_os.PhysAlloc.Valid.{IsValid, byte_at-lt, used_frames-le}
use quad_os.PhysAlloc.Alloc.{
  scan, slot, frame_of_slot, taken, taken-Allocated, taken-IsValid, taken-counted, alloc-take_slot,
}
use quad_os.PhysAlloc.Free.{freed, free-freed}

module _ (p : Pmm) (b i : ℕ) (v : IsValid p) (found : scan p ≡ some (b, i)) where
  abbrev q : Pmm
  q = taken p b i v found

  abbrev addr : ℕ
  addr = (b * 8 + i) * page_size % u32_mod

  used : is_pf_used q (addr / page_size) ≡ true
  used = ground (arith, (taken-Allocated p b i v found).marked (addr / page_size))

  bitmap_restored : (freed q addr (taken-IsValid p b i v found) used).bitmap ≡ p.bitmap
  unfolding byte_at
  bitmap_restored =
      let s = slot p b i v found in
      let e = frame_of_slot p b i v found in
      rw
        (
          e.0,
          e.1,
          e.2,
          get_or-set_self p.bitmap b (with_bit true (byte_at p.bitmap b) i) 0 s.3,
          set-set p.bitmap b,
          with_bit-with_bit (byte_at p.bitmap b) i (byte_at-lt p.bitmap b v.bytes) s.2 s.4,
        )
        (set-get_or p.bitmap b 0)

  total_restored :
      (freed q addr (taken-IsValid p b i v found) used).total_allocated ≡ p.total_allocated
  total_restored =
      omega (arith, taken-counted p b i v found, v.counted, v.small, used_frames-le p.bitmap)

  restored : pmm_free_pageframe addr q ≡ ok p
  restored =
      free-freed q addr (taken-IsValid p b i v found) used
      ∙ (λ k. ok (record p { bitmap = bitmap_restored k; total_allocated = total_restored k }))

-- Freeing the address that an allocation returned, from a valid state, gives back the state before it.
pub alloc-free :
    (p : Pmm) {addr : ℕ} {q : Pmm}
    → IsValid p
    → pmm_alloc_pageframe p ≡ ok (addr, q)
    → pmm_free_pageframe addr q ≡ ok p
unfolding take_slot
alloc-free p v h = elim (Option-cases (scan p)) [
  | inl e ↦ let h' = rw (alloc-take_slot p, e) at h in absurd (cc h')
  | inr ((b, i), e) ↦
      let h' = rw (alloc-take_slot p, e) at h in
      subst (λ (t : ℕ × Pmm). pmm_free_pageframe t.0 t.1 ≡ ok p) (ok-injective h')
        (restored p b i v e)
]
