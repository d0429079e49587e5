-- ===== src/Paging/Release.antt =====
-- kernel/memory.c, `mem_free_page_dir`: the user's part is emptied and the slot is free.
use quad_os.Base.{
  ℕ, zero, suc, ◌+◌, ◌≤◌, ◌<◌, ◌≡◌, ◌≢◌, ◌⊎◌, inl, inr, sym, ap, ◌∙◌, subst, false, ◌==◌,
  Bool-cases, if◌then◌else◌, ==_iff, ok, Returns, Returns-bind, Returns-map, refl, List, [], ◌++◌,
  ℕ_discrete, arith,
}
use quad_os.PhysAlloc.{Pmm, pmm_free_pageframe}
use quad_os.Paging.{
  Paging, Frames, owner, p_phys_addr, write, rec_pagetable, rec_pagedir, zero_entries,
}
use quad_os.Paging.Directories.{free_pages, free_table, free_tables}
use quad_os.Paging.Valid.{
  low_end, write-same, write-other, zero_entries-other, rec_pagetable-eq, rec_pagedir-eq,
}
use quad_os.Paging.Owned.{
  owned, owned_pages, owned_tables, CanFree, Kept, Released, Released-append, free_owned,
  free_pages-Released,
}
use mathlib.Core.List.{append_assoc}

-- Of the directory at `dir` the entries below `i` are empty; no other frame has changed but for the
-- tables that those entries led to.
pub record Emptied (p : Paging) (dir i : ℕ) (q : Paging) : Type 0 where
  pub empty : (j : ℕ) → j < i → q.frames dir j ≡ 0
  pub low : (g j : ℕ) → g < low_end → (g ≢ dir) ⊎ (i ≤ j) → q.frames g j ≡ p.frames g j
  pub at_dir : q.cr3 ≡ dir
  pub same_used : q.page_dir_used ≡ p.page_dir_used
  pub same_flag : q.interrupts_enabled ≡ p.interrupts_enabled
  pub others :
      (g j : ℕ)
      → g ≢ dir
      → ((k : ℕ) → k < i → p.frames dir k ≢ 0 → g ≢ p_phys_addr (p.frames dir k))
      → q.frames g j ≡ p.frames g j
  pub kept : Kept q.pmm

-- What the entry `i` of the directory at `dir` owns.
unfoldable owned_entry : Paging → ℕ → ℕ → List ℕ
owned_entry p dir i =
    let entry = p.frames dir i in
    if entry == 0 then [] else owned_pages 1024 0 (p.frames (p_phys_addr entry)) ++ owned entry

module _ (p : Paging) (dir : ℕ) (low_dir : dir < low_end)
    (recursive : p_phys_addr (p.frames dir 1023) ≡ dir) where
  module _ (i : ℕ) (inner : i < 768) (q : Paging) (h : Emptied p dir i q) where
    mapped : p_phys_addr (q.frames q.cr3 1023) ≡ q.cr3
    mapped =
        ap (λ (c : ℕ). p_phys_addr (q.frames c 1023)) h.at_dir
        ∙ ap p_phys_addr (h.low dir 1023 low_dir (inr (omega arith)))
        ∙ recursive
        ∙ sym h.at_dir

    dir-eq : rec_pagedir q.frames q.cr3 ≡ dir
    dir-eq = rec_pagedir-eq q.frames q.cr3 mapped ∙ h.at_dir

    entry-eq : q.frames dir i ≡ p.frames dir i
    entry-eq = h.low dir i low_dir (inr (omega arith))

    table-eq : rec_pagetable q.frames q.cr3 i ≡ p_phys_addr (p.frames dir i)
    table-eq =
        rec_pagetable-eq q.frames q.cr3 mapped i
        ∙ ap (λ (c : ℕ). p_phys_addr (q.frames c i)) h.at_dir
        ∙ ap p_phys_addr entry-eq

    -- An entry that is empty already.
    skip : p.frames dir i ≡ 0 → Emptied p dir (i + 1) q
    skip none = record {
      empty = λ j lt. elim (ℕ_discrete j i) [
        | yes e ↦ ap (q.frames dir) e ∙ entry-eq ∙ none
        | no ne ↦ h.empty j (omega arith)
      ];
      low = λ g j lo out. h.low g j lo (ground arith);
      at_dir = h.at_dir;
      same_used = h.same_used;
      same_flag = h.same_flag;
      others = λ g j ne out. h.others g j ne (λ k lt. out k (omega arith));
      kept = h.kept;
    }

    module _ (high : low_end ≤ p_phys_addr (p.frames dir i)) (used : p.frames dir i ≢ 0) where
      abbrev zeroed : Frames
      zeroed = zero_entries (rec_pagetable q.frames q.cr3 i) 1024 q.frames

      low-zeroed : (g j : ℕ) → g < low_end → zeroed g j ≡ q.frames g j
      low-zeroed g j lo =
          zero_entries-other (rec_pagetable q.frames q.cr3 i) 1024 q.frames g j
            (inl (omega (arith, table-eq)))

      dir-zeroed : rec_pagedir zeroed q.cr3 ≡ dir
      dir-zeroed =
          rec_pagedir-eq zeroed q.cr3
            (ap p_phys_addr (low-zeroed q.cr3 1023 (omega (arith, h.at_dir))) ∙ mapped)
          ∙ h.at_dir

      abbrev emptied : Pmm → Paging
      emptied pmm = record q { pmm = pmm; frames = write (rec_pagedir zeroed q.cr3) i 0 zeroed }

      write-at : (g j : ℕ) (pmm : Pmm) → (emptied pmm).frames g j ≡ write dir i 0 zeroed g j
      write-at g j pmm = ap (λ (f : ℕ). write f i 0 zeroed g j) dir-zeroed

      emptied-Emptied : (pmm : Pmm) → Kept pmm → Emptied p dir (i + 1) (emptied pmm)
      emptied-Emptied pmm k = record {
        empty = λ j lt. write-at dir j pmm ∙ (elim (ℕ_discrete j i) [
          | yes e ↦ ap (write dir i 0 zeroed dir) e ∙ write-same dir i 0 zeroed
          | no ne ↦
              write-other dir i 0 zeroed dir j (inr ne)
              ∙ low-zeroed dir j low_dir
              ∙ h.empty j (omega arith)
        ]);
        low = λ g j lo out.
            write-at g j pmm
            ∙ write-other dir i 0 zeroed g j (ground arith)
            ∙ low-zeroed g j lo
            ∙ h.low g j lo (ground arith);
        at_dir = h.at_dir;
        same_used = h.same_used;
        same_flag = h.same_flag;
        others = λ g j ne out.
            write-at g j pmm
            ∙ write-other dir i 0 zeroed g j (inl ne)
            ∙ zero_entries-other (rec_pagetable q.frames q.cr3 i) 1024 q.frames g j
                (inl (λ e. out i (omega arith) used (e ∙ table-eq)))
            ∙ h.others g j ne (λ k lt. out k (omega arith));
        kept = k;
      }

      -- The table is still what it was at the start, and is not the directory.
      free_table-Released :
          (rest : List ℕ)
          → ((k : ℕ)
              → k < i
              → p.frames dir k ≢ 0
              → p_phys_addr (p.frames dir i) ≢ p_phys_addr (p.frames dir k))
          → CanFree q.pmm (owned_entry p dir i ++ rest)
          → Returns
              (free_table i q)
              (λ q'. Emptied p dir (i + 1) q' × Released q.pmm (owned_entry p dir i) rest q'.pmm)
      unfolding free_table owned_entry
      free_table-Released rest apart can =
          let entry = q.frames (rec_pagedir q.frames q.cr3) i in
          let pt = rec_pagetable q.frames q.cr3 i in
          let e = p.frames dir i in
          let pages = owned_pages 1024 0 (p.frames (p_phys_addr e)) in
          let at : entry ≡ e = ap (λ (d : ℕ). q.frames d i) dir-eq ∙ entry-eq in
          let table : (j : ℕ) → q.frames pt j ≡ p.frames (p_phys_addr e) j = λ j.
            ap (λ (t : ℕ). q.frames t j) table-eq
            ∙ h.others (p_phys_addr e) j (λ eq. omega (arith, eq, high, low_dir)) apart in
          let not_empty : (e == 0) ≡ false = ground (arith, used) in
          let can' =
            subst (CanFree q.pmm) (append_assoc pages (owned e) rest) (simp not_empty at can) in
          Returns-bind (free_pages 1024 0 pt q) _ (Released q.pmm pages (owned e ++ rest)) _
            (free_pages-Released 1024 0 pt q (p.frames (p_phys_addr e)) (owned e ++ rest) table
              h.kept can')
            (λ pmm one.
              Returns-bind
                (if owner entry then pmm_free_pageframe (p_phys_addr entry) pmm else ok pmm) _
                (Released pmm (owned e) rest) _
                (subst
                  (λ (t : ℕ).
                    Returns (if owner t then pmm_free_pageframe (p_phys_addr t) pmm else ok pmm)
                      (Released pmm (owned e) rest))
                  (sym at) (free_owned e pmm rest one.kept one.can_go_on))
                (λ pmm' two. (
                  emptied-Emptied pmm' two.kept,
                  simp not_empty (Released-append q.pmm pmm pmm' pages (owned e) rest one two),
                )))

  module _
      (user : (j : ℕ) → j < 768 → (p.frames dir j ≡ 0) ⊎ (low_end ≤ p_phys_addr (p.frames dir j)))
      (apart : (i k : ℕ)
        → i < 768
        → k < i
        → p.frames dir i ≢ 0
        → p.frames dir k ≢ 0
        → p_phys_addr (p.frames dir i) ≢ p_phys_addr (p.frames dir k)) where
    visited :
        (i : ℕ) (inner : i < 768) (q : Paging) (h : Emptied p dir i q) (rest : List ℕ)
        → CanFree q.pmm (owned_entry p dir i ++ rest)
        → Returns
            (if q.frames (rec_pagedir q.frames q.cr3) i == 0 then ok q else free_table i q)
            (λ q'. Emptied p dir (i + 1) q' × Released q.pmm (owned_entry p dir i) rest q'.pmm)
    unfolding owned_entry
    visited i inner q h rest can =
        let at : q.frames (rec_pagedir q.frames q.cr3) i ≡ p.frames dir i =
          ap (λ (d : ℕ). q.frames d i) (dir-eq i inner q h) ∙ entry-eq i inner q h in
        elim (Bool-cases (p.frames dir i == 0)) [
          | inl e ↦
              simp (at, e)
                (
                  skip i inner q h ((==_iff _ _).0 e),
                  record { kept = h.kept; cleared = λ f. refl; can_go_on = simp e at can },
                )
          | inr e ↦
              let used : p.frames dir i ≢ 0 = λ none. ground (arith, e, none) in
              simp (at, e)
                (elim (user i inner) [
                  | inl none ↦ absurd (used none)
                  | inr high ↦
                      (simp e at (
                        free_table-Released i inner q h high used rest
                          (λ k lt. apart i k inner lt used) can))
                ])
        ]

    pub free_tables-Released :
        (left i : ℕ)
        → i + left ≡ 768
        → (q : Paging) → Emptied p dir i q
        → CanFree q.pmm (owned_tables left i dir p.frames ++ [])
        → Returns (free_tables left i q) (λ q'.
          Emptied p dir 768 q' × Released q.pmm (owned_tables left i dir p.frames) [] q'.pmm)
    unfolding free_tables owned_tables owned_entry
    free_tables-Released zero i total q h can = (
      subst (λ (t : ℕ). Emptied p dir t q) (omega arith) h,
      record { kept = h.kept; cleared = λ f. refl; can_go_on = tt },
    )
    free_tables-Released (suc left) i total q h can =
        let here = owned_entry p dir i in
        let later = owned_tables left (i + 1) dir p.frames in
        Returns-bind (if q.frames (rec_pagedir q.frames q.cr3) i == 0 then ok q else free_table i q)
          _ (λ q'. Emptied p dir (i + 1) q' × Released q.pmm here (later ++ []) q'.pmm) _
          (visited i (omega arith) q h (later ++ [])
            (subst (CanFree q.pmm) (append_assoc here later []) can))
          (λ q' one.
            Returns-map (free_tables left (i + 1) q') _ _
              (free_tables-Released left (i + 1) (omega arith) q' one.0 one.1.can_go_on)
              (λ q'' more.
                (more.0, Released-append q.pmm q'.pmm q''.pmm here later [] one.1 more.1)))
