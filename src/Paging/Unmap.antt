-- ===== src/Paging/Unmap.antt =====
-- kernel/memory.c, `mem_unmap_page`: the page is gone, its entry is the result, and what the kernel
-- owns goes back to the frame allocator.
use quad_os.Base.{
  ℕ, ◌/◌, ◌<◌, ◌≡◌, ◌⊎◌, inl, inr, refl, ap, ◌∙◌, true, false, ◌==◌, Bool-cases, if◌then◌else◌,
  page_size, sub32, ok, kernel_assert, Delivers, Delivers-bind, Delivers-map, Delivers-stop, arith,
}
use quad_os.PhysAlloc.{Pmm, is_pf_used, pmm_free_pageframe}
use quad_os.PhysAlloc.Free.{free-Freed, free_panics_iff}
use quad_os.PhysAlloc.Valid
use quad_os.Paging.{
  Image, Paging, Frames, present, owner, p_phys_addr, write, rec_pagetable, pd_index, pt_index,
}
use quad_os.Paging.Pages.{any_present, remove_table, unmap_entry}
use quad_os.Paging.Valid.{
  low_end, IsTableIndex, IsPaging, write-same, write-other, rec_pagetable-eq, rec_pagedir-eq,
}
use quad_os.Paging.Map.{here-low}
use quad_os.Paging.Edit.{Edited}

-- A release stops the machine only on a frame that is not in use.
pub free-checked :
    (p : Pmm) (addr : ℕ)
    → Valid.IsValid p
    → Delivers (is_pf_used p (addr / page_size) ≡ false) (pmm_free_pageframe addr p) (λ q.
      Valid.IsValid q
      × (q.page_frame_min ≡ p.page_frame_min)
      × ((f : ℕ) → is_pf_used q f ≡ (if addr / page_size == f then false else is_pf_used p f)))
free-checked p addr v = elim (Bool-cases (is_pf_used p (addr / page_size))) [
  | inl used ↦
      let (q, e, freed, w) = free-Freed p addr v used in simp e (w, freed.limits.0, freed.cleared)
  | inr e ↦ simp ((free_panics_iff p addr).1 e) e
]

-- A release of a frame that is not in use: that of the table, that of the page, or both are one.
abbrev pub NotMarked : Paging → ℕ → ℕ → Type 0
NotMarked p table pte =
    (is_pf_used p.pmm (table / page_size) ≡ false)
    ⊎ ((is_pf_used p.pmm (p_phys_addr pte / page_size) ≡ false)
        ⊎ (table / page_size ≡ p_phys_addr pte / page_size))

-- In the current directory of `p`, which is that of `q`, no page is at `virt`.
abbrev pub Gone : ℕ → Frames → ℕ → Type 0
Gone virt frames dir =
    (present (frames dir (pd_index virt)) ≡ false)
    ⊎ ((present (frames dir (pd_index virt)) ≡ true)
        × (present (frames (p_phys_addr (frames dir (pd_index virt))) (pt_index virt)) ≡ false))

module _ (image : Image) (p : Paging) (v : IsPaging image p) (virt : ℕ)
    (index : IsTableIndex (pd_index virt))
    (has_table : present (p.frames p.cr3 (pd_index virt)) ≡ true) where
  abbrev pde : ℕ
  pde = p.frames p.cr3 (pd_index virt)

  abbrev table : ℕ
  table = p_phys_addr pde

  abbrev pte : ℕ
  pte = p.frames table (pt_index virt)

  -- The entry is cleared.
  abbrev cleared : Paging
  cleared = record p {
    frames = write table (pt_index virt) 0 p.frames;
    mem_num_vpages = sub32 p.mem_num_vpages 1;
  }

  low-cleared : (g i : ℕ) → g < low_end → cleared.frames g i ≡ p.frames g i
  low-cleared g i lo =
      write-other table (pt_index virt) 0 p.frames g i
        (inl (omega (arith, v.tables p.cr3 v.current (pd_index virt) index has_table)))

  mapped : p_phys_addr (p.frames p.cr3 1023) ≡ p.cr3
  mapped = v.recursive p.cr3 v.current

  mapped-cleared : p_phys_addr (cleared.frames p.cr3 1023) ≡ p.cr3
  mapped-cleared = ap p_phys_addr (low-cleared p.cr3 1023 (here-low image p v)) ∙ mapped

  pde-cleared : cleared.frames p.cr3 (pd_index virt) ≡ pde
  pde-cleared = low-cleared p.cr3 (pd_index virt) (here-low image p v)

  -- What is left once the table may be gone and the allocator is `pmm`.
  record Removed (q : Paging) : Type 0 where
    edited : Edited p (pd_index virt) q
    gone : Gone virt q.frames p.cr3
    marks :
        (f : ℕ)
        → is_pf_used q.pmm f ≡ false
        → (is_pf_used p.pmm f ≡ false) ⊎ (table / page_size ≡ f)

  kept-Removed : Removed cleared
  kept-Removed = record {
    edited = record {
      sound =
          λ e. omega (arith, pde-cleared, v.tables p.cr3 v.current (pd_index virt) index has_table);
      low = λ g i lo other. low-cleared g i lo;
      same_cr3 = refl;
      same_used = refl;
      same_flag = refl;
      allocator = v.allocator;
      first_frame = v.first_frame;
    };
    gone = inr (
      ap present pde-cleared ∙ has_table,
      ap (λ (t : ℕ). present (cleared.frames t (pt_index virt))) (ap p_phys_addr pde-cleared)
          ∙ ap present (write-same table (pt_index virt) 0 p.frames),
    );
    marks = λ f e. inl e;
  }

  abbrev removed : Pmm → Paging
  removed pmm = record cleared { pmm = pmm; frames = write p.cr3 (pd_index virt) 0 cleared.frames }

  removed-Removed :
      (pmm : Pmm)
      → Valid.IsValid pmm
      → pmm.page_frame_min ≡ p.pmm.page_frame_min
      → ((f : ℕ)
          → is_pf_used pmm f ≡ (if table / page_size == f then false else is_pf_used p.pmm f))
      → Removed (removed pmm)
  removed-Removed pmm w first marked =
      let absent : present ((removed pmm).frames p.cr3 (pd_index virt)) ≡ false =
        ap present (write-same p.cr3 (pd_index virt) 0 cleared.frames) in
      record {
        edited = record {
          sound = λ e. absurd (cc (e, absent));
          low = λ g i lo other.
              write-other p.cr3 (pd_index virt) 0 cleared.frames g i other ∙ low-cleared g i lo;
          same_cr3 = refl;
          same_used = refl;
          same_flag = refl;
          allocator = w;
          first_frame = first ∙ v.first_frame;
        };
        gone = inl absent;
        marks = λ f e. ground (arith, marked f, e);
      }

  remove_table-Removed :
      Delivers
        (is_pf_used p.pmm (table / page_size) ≡ false)
        (remove_table (pd_index virt) cleared)
        Removed
  unfolding remove_table
  remove_table-Removed =
      let dir = rec_pagedir-eq cleared.frames p.cr3 mapped-cleared in
      elim (Bool-cases
        (any_present cleared.frames (rec_pagetable cleared.frames p.cr3 (pd_index virt)) 0 1024)) [
          | inl e ↦ simp e kept-Removed
          | inr e ↦ elim (Bool-cases (owner pde)) [
            | inl o ↦
                simp (e, dir, pde-cleared, o)
                  (Delivers-bind (is_pf_used p.pmm (table / page_size) ≡ false)
                    (pmm_free_pageframe table p.pmm) _ _ Removed
                    (free-checked p.pmm table v.allocator)
                    (λ pmm h. removed-Removed pmm h.0 h.1 h.2))
            | inr o ↦ simp (e, dir, pde-cleared, o) kept-Removed
          ]
        ]

  with_pmm :
      (q : Paging) (pmm : Pmm)
      → Removed q
      → Valid.IsValid pmm
      → pmm.page_frame_min ≡ q.pmm.page_frame_min
      → Edited p (pd_index virt) (record q { pmm = pmm })
  with_pmm q pmm r w first = record {
    sound = r.edited.sound;
    low = r.edited.low;
    same_cr3 = r.edited.same_cr3;
    same_used = r.edited.same_used;
    same_flag = r.edited.same_flag;
    allocator = w;
    first_frame = first ∙ r.edited.first_frame;
  }

  page_released :
      (q : Paging)
      → Removed q
      → Delivers
          (NotMarked p table pte)
          (if owner pte then pmm_free_pageframe (p_phys_addr pte) q.pmm else ok q.pmm)
          (λ pmm. Valid.IsValid pmm × (pmm.page_frame_min ≡ q.pmm.page_frame_min))
  page_released q r = elim (Bool-cases (owner pte)) [
    | inl o ↦ simp o (
        Delivers-stop (is_pf_used q.pmm (p_phys_addr pte / page_size) ≡ false)
          (NotMarked p table pte) (pmm_free_pageframe (p_phys_addr pte) q.pmm) _
          (λ e. elim (r.marks (p_phys_addr pte / page_size) e) [
            | inl x ↦ inr (inl x)
            | inr x ↦ inr (inr x)
          ])
          (Delivers-map (is_pf_used q.pmm (p_phys_addr pte / page_size) ≡ false)
            (pmm_free_pageframe (p_phys_addr pte) q.pmm) _ _
            (free-checked q.pmm (p_phys_addr pte) r.edited.allocator) (λ pmm h. (h.0, h.1))))
    | inr o ↦ simp o (r.edited.allocator, refl)
  ]

  pub unmap_entry-Edited :
      present pte ≡ true
      → Delivers
          (NotMarked p table pte)
          (unmap_entry virt p)
          (λ t. (t.0 ≡ pte) × Edited p (pd_index virt) t.1 × Gone virt t.1.frames p.cr3)
  unfolding unmap_entry kernel_assert
  unmap_entry-Edited has_page =
      let dir = rec_pagedir-eq p.frames p.cr3 mapped in
      let tbl = rec_pagetable-eq p.frames p.cr3 mapped (pd_index virt) in
      simp (dir, tbl, has_table, has_page)
        (Delivers-bind (NotMarked p table pte) (remove_table (pd_index virt) cleared) _ Removed _
          (Delivers-stop (is_pf_used p.pmm (table / page_size) ≡ false) (NotMarked p table pte)
            (remove_table (pd_index virt) cleared) Removed inl remove_table-Removed)
          (λ q r.
            Delivers-bind (NotMarked p table pte)
              (if owner pte then pmm_free_pageframe (p_phys_addr pte) q.pmm else ok q.pmm) _
              (λ pmm. Valid.IsValid pmm × (pmm.page_frame_min ≡ q.pmm.page_frame_min)) _
              (page_released q r) (λ pmm h. (refl, with_pmm q pmm r h.0 h.1, r.gone))))
