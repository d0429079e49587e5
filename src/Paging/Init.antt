-- ===== src/Paging/Init.antt =====
-- kernel/memory.c, `init_memory`: the state that it leaves.
use quad_os.Base.{
  ℕ, zero, suc, ◌≤◌, ◌<◌, ◌≡◌, ◌≢◌, inl, inr, refl, sym, ap, ◌∙◌, bit_or, bit_or-flags, true, false,
  get_or, replicate, get_or-replicate, length-replicate, arith,
}
use quad_os.PhysAlloc.{bitmap_bytes, pmm_init, scan_end}
use quad_os.PhysAlloc.Valid.{pmm_init-IsValid}
use quad_os.Paging.{
  Image, Paging, Frames, present, p_phys_addr, write, zero_dirs, initial, page_dir, init_memory,
}
use quad_os.Paging.Valid.{
  IsTableIndex, InUse, IsPaging, write-same, write-other, zero_entries-other,
}
use quad_os.Paging.Sync.{initial-ne}

module _ (image : Image) where
  zero_dirs-other :
      (n : ℕ) (frames : Frames) (g j : ℕ)
      → ((k : ℕ) → g ≢ page_dir image k)
      → zero_dirs image n frames g j ≡ frames g j
  unfolding zero_dirs
  zero_dirs-other zero frames g j h = refl
  zero_dirs-other (suc n) frames g j h =
      zero_entries-other (page_dir image n) 1024 (zero_dirs image n frames) g j (inl (h n))
      ∙ zero_dirs-other n frames g j h

  -- No slot is in use.
  none_used : (n k : ℕ) → get_or (replicate n false) k false ≡ true → ⊥
  none_used n k u = cc (get_or-replicate n k false, u)

  module _ (p : Paging) (mem_high : ℕ) where
    abbrev started : Paging
    started = init_memory image mem_high p

    initial-started :
        (j : ℕ)
        → started.frames (initial image) j
          ≡ write
              (initial image)
              1023
              (bit_or (bit_or (initial image) 1) 2)
              (write (initial image) 0 0 p.frames)
              (initial image)
              j
    unfolding init_memory
    initial-started j = zero_dirs-other 256 _ (initial image) j (λ k. initial-ne image k)

    initial-only : (d : ℕ) → InUse image started.page_dir_used d → d ≡ initial image
    unfolding init_memory
    initial-only d (inl e) = e
    initial-only d (inr (k, lt, u, e)) = absurd (none_used 256 k u)

    recursive-started : p_phys_addr (started.frames (initial image) 1023) ≡ initial image
    recursive-started =
        ap p_phys_addr (
          initial-started 1023
          ∙ write-same (initial image) 1023 (bit_or (bit_or (initial image) 1) 2) _)
        ∙ omega (
          arith,
          bit_or-flags (bit_or (initial image) 1) 2 (omega arith),
          bit_or-flags (initial image) 1 (omega arith),
          image.initial_aligned,
          image.initial_above,
        )

    zero_absent : present 0 ≡ true → ⊥
    zero_absent e = ground arith

    no_table :
        ((j : ℕ) → IsTableIndex j → 0 < j → p.frames (initial image) j ≡ 0)
        → (j : ℕ) → IsTableIndex j
        → started.frames (initial image) j ≡ 0
    no_table boot zero index =
        initial-started zero
        ∙ write-other (initial image) 1023 _ _ (initial image) zero (inr (omega arith))
        ∙ write-same (initial image) 0 0 p.frames
    no_table boot (suc j) index =
        initial-started (suc j)
        ∙ write-other (initial image) 1023 _ _ (initial image) (suc j) (inr (omega (arith, index)))
        ∙ write-other (initial image) 0 0 p.frames (initial image) (suc j) (inr (omega arith))
        ∙ boot (suc j) index (omega arith)

    -- When `init_memory` has run in the initial page directory, in which the boot code has set up no
    -- page table, with interrupts off and a memory whose scanned frames are in the bitmap, the
    -- invariant holds.
    pub init_memory-IsPaging :
        p.interrupts_enabled ≡ false
        → p.cr3 ≡ initial image
        → ((j : ℕ) → IsTableIndex j → 0 < j → p.frames (initial image) j ≡ 0)
        → scan_end (pmm_init 0x40_0000 mem_high) ≤ bitmap_bytes
        → IsPaging image started
    unfolding init_memory
    init_memory-IsPaging off at boot scanned = record {
      off = off;
      slots = length-replicate 256 false;
      current = inl at;
      recursive = λ d u.
          let at_initial = ap (λ (t : ℕ). p_phys_addr (started.frames t 1023)) (initial-only d u) in
          at_initial ∙ recursive-started ∙ sym (initial-only d u);
      tables = λ d u j index e.
          let empty =
            ap (λ (t : ℕ). started.frames t j) (initial-only d u) ∙ no_table boot j index in
          absurd (zero_absent (sym (ap present empty) ∙ e));
      synced = λ k lt u j from to. absurd (none_used 256 k u);
      allocator = pmm_init-IsValid 0x40_0000 mem_high scanned;
      first_frame = refl;
    }
