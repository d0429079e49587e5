-- ===== src/Paging/Map.antt =====
-- kernel/memory.c, `mem_map_page` inside one page directory: the table that it makes or finds, and
-- the entry that it writes.
use quad_os.Base.{
  ℕ, ◌*◌, ◌/◌, ◌≤◌, ◌<◌, ◌≡◌, ◌≢◌, ◌⊎◌, inl, inr, refl, ap, ◌∙◌, bit_or, bit_or-odd, bit_or-flags,
  true, Bool-cases, panic, Delivers, Delivers-bind, Delivers-known, arith,
}
use quad_os.PhysAlloc.{Pmm, pmm_alloc_pageframe}
use quad_os.PhysAlloc.Alloc.{alloc-Allocated, alloc-steady}
use quad_os.PhysAlloc.Valid
use quad_os.Paging.{
  Image, Paging, Frames, present, p_phys_addr, write, pd_index, pt_index, rec_pagetable,
  zero_entries,
}
use quad_os.Paging.Pages.{ensure_table, map_entry}
use quad_os.Paging.Valid.{
  low_end, IsTableIndex, IsPaging, InUse-low, write-same, write-other, zero_entries-other,
  rec_pagetable-eq, rec_pagedir-eq,
}

-- A frame for a page table is page aligned and lies above the kernel's image.
pub frame-high :
    (p : Pmm)
    → Valid.IsValid p
    → p.page_frame_min ≡ 1024
    → Delivers (pmm_alloc_pageframe p ≡ panic) (pmm_alloc_pageframe p) (λ t.
      (low_end ≤ t.0) × (t.0 / 4096 * 4096 ≡ t.0) × Valid.IsValid t.1 × (t.1.page_frame_min ≡ 1024))
frame-high p v first =
    Delivers-known Unit (pmm_alloc_pageframe p ≡ panic) (pmm_alloc_pageframe p) (λ _. Unit) _
      (alloc-steady p) (λ h. h)
      (λ t h.
        let (a, v') = alloc-Allocated p v h in
        (
          omega (arith, a.in_range, a.aligned, first),
          omega (arith, a.aligned),
          v',
          a.limits.0 ∙ first,
        ))

-- The directory entry that a new table gets.
abbrev table_entry : ℕ → ℕ → ℕ
table_entry pt flags = bit_or (bit_or (bit_or (bit_or pt 1) 2) 512) flags

table_entry-addr :
    (pt flags : ℕ) → flags < 4096 → pt / 4096 * 4096 ≡ pt → p_phys_addr (table_entry pt flags) ≡ pt
table_entry-addr pt flags small e = omega (
  arith,
  bit_or-flags (bit_or (bit_or (bit_or pt 1) 2) 512) flags (omega arith),
  bit_or-flags (bit_or (bit_or pt 1) 2) 512 (omega arith),
  bit_or-flags (bit_or pt 1) 2 (omega arith),
  bit_or-flags pt 1 (omega arith),
  e,
)

table_entry-present : (pt flags : ℕ) → present (table_entry pt flags) ≡ true
table_entry-present pt flags = ground (
  arith,
  bit_or-odd (bit_or (bit_or (bit_or pt 1) 2) 512) flags,
  bit_or-odd (bit_or (bit_or pt 1) 2) 512,
  bit_or-odd (bit_or pt 1) 2,
  bit_or-odd pt 1,
)

-- `q` is `p` with a page table for the entry `j` of the current directory.
pub record HasTable (p : Paging) (j : ℕ) (q : Paging) : Type 0 where
  pub table : ℕ
  pub table_high : low_end ≤ table
  pub is_present : present (q.frames p.cr3 j) ≡ true
  pub leads : p_phys_addr (q.frames p.cr3 j) ≡ table
  pub low : (g i : ℕ) → g < low_end → (g ≢ p.cr3) ⊎ (i ≢ j) → q.frames g i ≡ p.frames g i
  pub same_cr3 : q.cr3 ≡ p.cr3
  pub same_used : q.page_dir_used ≡ p.page_dir_used
  pub same_flag : q.interrupts_enabled ≡ p.interrupts_enabled
  pub allocator : Valid.IsValid q.pmm
  pub first_frame : q.pmm.page_frame_min ≡ 1024

module _ (image : Image) (p : Paging) (v : IsPaging image p) where
  here-mapped : p_phys_addr (p.frames p.cr3 1023) ≡ p.cr3
  here-mapped = v.recursive p.cr3 v.current

  pub here-low : p.cr3 < low_end
  here-low = InUse-low image p.page_dir_used p.cr3 v.current

  old_table : (j : ℕ) → IsTableIndex j → present (p.frames p.cr3 j) ≡ true → HasTable p j p
  old_table j index e = record {
    table = p_phys_addr (p.frames p.cr3 j);
    table_high = v.tables p.cr3 v.current j index e;
    is_present = e;
    leads = refl;
    low = λ g i lo other. refl;
    same_cr3 = refl;
    same_used = refl;
    same_flag = refl;
    allocator = v.allocator;
    first_frame = v.first_frame;
  }

  module _ (j pt flags : ℕ) (pmm : Pmm) (index : IsTableIndex j) (small : flags < 4096)
      (high : low_end ≤ pt) (aligned : pt / 4096 * 4096 ≡ pt) where
    abbrev with_entry : Frames
    with_entry = write p.cr3 j (table_entry pt flags) p.frames

    leads-with_entry : rec_pagetable with_entry p.cr3 j ≡ pt
    leads-with_entry =
        rec_pagetable-eq with_entry p.cr3
          (ap p_phys_addr (
              write-other p.cr3 j (table_entry pt flags) p.frames p.cr3 1023
                (inr (omega (arith, index))))
            ∙ here-mapped)
          j
        ∙ ap p_phys_addr (write-same p.cr3 j (table_entry pt flags) p.frames)
        ∙ table_entry-addr pt flags small aligned

    abbrev with_table : Paging
    with_table = record p {
      frames = zero_entries (rec_pagetable with_entry p.cr3 j) 1024 with_entry;
      pmm = pmm;
    }

    low-with_table : (g i : ℕ) → g < low_end → with_table.frames g i ≡ with_entry g i
    low-with_table g i lo =
        zero_entries-other (rec_pagetable with_entry p.cr3 j) 1024 with_entry g i
          (inl (omega (arith, leads-with_entry, high)))

    new_table : Valid.IsValid pmm → pmm.page_frame_min ≡ 1024 → HasTable p j with_table
    new_table valid first =
        let here : with_table.frames p.cr3 j ≡ table_entry pt flags =
          low-with_table p.cr3 j here-low ∙ write-same p.cr3 j (table_entry pt flags) p.frames in
        record {
          table = pt;
          table_high = high;
          is_present = rw here (table_entry-present pt flags);
          leads = rw here (table_entry-addr pt flags small aligned);
          low = λ g i lo other.
              low-with_table g i lo ∙ write-other p.cr3 j (table_entry pt flags) p.frames g i other;
          same_cr3 = refl;
          same_used = refl;
          same_flag = refl;
          allocator = valid;
          first_frame = first;
        }

  pub ensure_table-HasTable :
      (virt flags : ℕ)
      → IsTableIndex (pd_index virt)
      → flags < 4096
      → Delivers
          (pmm_alloc_pageframe p.pmm ≡ panic)
          (ensure_table virt flags p)
          (HasTable p (pd_index virt))
  unfolding ensure_table
  ensure_table-HasTable virt flags index small =
      let j = pd_index virt in
      elim (Bool-cases (present (p.frames p.cr3 j))) [
        | inl e ↦ simp (rec_pagedir-eq p.frames p.cr3 here-mapped, e) (old_table j index e)
        | inr e ↦
            simp (rec_pagedir-eq p.frames p.cr3 here-mapped, e)
              (Delivers-bind (pmm_alloc_pageframe p.pmm ≡ panic) (pmm_alloc_pageframe p.pmm) _ _ _
                (frame-high p.pmm v.allocator v.first_frame)
                (λ t h. new_table j t.0 flags t.1 index small h.0 h.1 h.2 h.3))
      ]

-- `q` is `p` with `pte` written for the address `virt`.
pub record Mapped (p : Paging) (virt pte : ℕ) (q : Paging) : Type 0 where
  pub has_table : HasTable p (pd_index virt) q
  pub written : q.frames has_table.table (pt_index virt) ≡ pte

module _ (image : Image) (p : Paging) (v : IsPaging image p) where
  -- The entry is written into the table and leaves the directory that leads there.
  write_entry :
      (virt pte pages : ℕ) (q : Paging)
      → HasTable p (pd_index virt) q
      → p_phys_addr (q.frames p.cr3 1023) ≡ p.cr3
      → Mapped p virt pte (record q {
        frames = write (rec_pagetable q.frames q.cr3 (pd_index virt)) (pt_index virt) pte q.frames;
        mem_num_vpages = pages;
      })
  write_entry virt pte pages q h mapped =
      let j = pd_index virt in
      let pt = rec_pagetable q.frames q.cr3 j in
      let at_table : pt ≡ h.table =
        ap (λ (c : ℕ). rec_pagetable q.frames c j) h.same_cr3
        ∙ rec_pagetable-eq q.frames p.cr3 mapped j
        ∙ h.leads in
      let untouched : (g i : ℕ)
          → g < low_end
          → write pt (pt_index virt) pte q.frames g i ≡ q.frames g i =
        λ g i lo.
          write-other pt (pt_index virt) pte q.frames g i
            (inl (omega (arith, at_table, h.table_high))) in
      record {
        has_table = record {
          table = h.table;
          table_high = h.table_high;
          is_present = ap present (untouched p.cr3 j (here-low image p v)) ∙ h.is_present;
          leads = ap p_phys_addr (untouched p.cr3 j (here-low image p v)) ∙ h.leads;
          low = λ g i lo other. untouched g i lo ∙ h.low g i lo other;
          same_cr3 = h.same_cr3;
          same_used = h.same_used;
          same_flag = h.same_flag;
          allocator = h.allocator;
          first_frame = h.first_frame;
        };
        written =
            ap (λ (f : ℕ). write f (pt_index virt) pte q.frames h.table (pt_index virt)) at_table
            ∙ write-same h.table (pt_index virt) pte q.frames;
      }

  pub map_entry-Mapped :
      (virt phys flags : ℕ)
      → IsTableIndex (pd_index virt)
      → flags < 4096
      → Delivers
          (pmm_alloc_pageframe p.pmm ≡ panic)
          (map_entry virt phys flags p)
          (Mapped p virt (bit_or (bit_or phys 1) flags))
  unfolding map_entry
  map_entry-Mapped virt phys flags index small =
      Delivers-bind (pmm_alloc_pageframe p.pmm ≡ panic) (ensure_table virt flags p) _
        (HasTable p (pd_index virt)) _ (ensure_table-HasTable image p v virt flags index small)
        (λ q h. write_entry virt (bit_or (bit_or phys 1) flags) _ q h (
          ap p_phys_addr (h.low p.cr3 1023 (here-low image p v) (inr (omega (arith, index))))
          ∙ here-mapped image p v))
