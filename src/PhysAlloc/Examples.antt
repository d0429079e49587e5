-- ===== src/PhysAlloc/Examples.antt =====
-- kernel/physalloc.c on a small bitmap: 24 frames, of which the scan covers 8 to 23.
use quad_os.Base.{ℕ, ◌≡◌, ◌↔◌, ◌≤◌, ◌<◌, refl, true, [], ◌∷◌, ok, panic, arith}
use quad_os.PhysAlloc.{
  Pmm, is_pf_used, free_slot, free_bit, pmm_alloc_pageframe, pmm_free_pageframe,
}
use quad_os.PhysAlloc.Bits.{ones_below}
use quad_os.PhysAlloc.Valid.{IsValid, used_frames}
use quad_os.PhysAlloc.Alloc.{Allocated, alloc-Allocated, alloc_panics_iff}
use quad_os.PhysAlloc.Free.{Freed, free-Freed}
use quad_os.PhysAlloc.RoundTrip.{alloc-free}

-- Frames 8 to 15 and 16, 18 are in use.
abbrev busy : Pmm
busy = record {
  bitmap = 0 ∷ 0xff ∷ 5 ∷ [];
  page_frame_min = 5;
  page_frame_max = 24;
  total_allocated = 10;
}

-- The same after frame 17 is taken.
abbrev busier : Pmm
busier = record busy { bitmap = 0 ∷ 0xff ∷ 7 ∷ []; total_allocated = 11 }

abbrev full : Pmm
full = record busy { bitmap = 0 ∷ 0xff ∷ 0xff ∷ []; total_allocated = 16 }

busy-IsValid : IsValid busy
unfolding used_frames ones_below
busy-IsValid = omega arith

full-IsValid : IsValid full
unfolding used_frames ones_below
full-IsValid = omega arith

alloc_busy : pmm_alloc_pageframe busy ≡ ok (0x11000, busier)
unfolding pmm_alloc_pageframe free_slot free_bit
alloc_busy = refl

alloc-Allocated_example : Allocated busy 0x11000 busier × IsValid busier
alloc-Allocated_example = alloc-Allocated busy busy-IsValid alloc_busy

alloc_panics_iff_example :
    (pmm_alloc_pageframe full ≡ panic) ↔ ((f : ℕ) → 8 ≤ f → f < 24 → is_pf_used full f ≡ true)
alloc_panics_iff_example = alloc_panics_iff full full-IsValid

free-Freed_example :
    (q : Pmm) × (pmm_free_pageframe 0x12000 busy ≡ ok q) × Freed busy 0x12000 q × IsValid q
unfolding is_pf_used
free-Freed_example = free-Freed busy 0x12000 busy-IsValid refl

alloc-free_example : pmm_free_pageframe 0x11000 busier ≡ ok busy
alloc-free_example = alloc-free busy busy-IsValid alloc_busy
