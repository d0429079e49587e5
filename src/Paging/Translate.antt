-- ===== src/Paging/Translate.antt =====
-- kernel/memory.c: a page that `mem_map_page` has mapped is found by `mem_get_phys_from_virt` and
-- `mem_is_valid_vaddr`.
use quad_os.Base.{
  ℕ, ◌+◌, ◌≤◌, ◌<◌, ◌≡◌, inl, refl, sym, ap, ◌∙◌, bit_or, bit_or-odd, bit_or-flags, Bool, true,
  List, ok, panic, Delivers, Delivers-bind, subst, dec_le, arith,
}
use quad_os.PhysAlloc.{pmm_alloc_pageframe}
use quad_os.Paging.{
  Image, Paging, kernel_start, present, p_phys_addr, rec_pagetable, rec_pagedir, pd_index, pt_index,
  leave_kernel_dir,
}
use quad_os.Paging.Pages.{map_entry, mem_map_page, mem_get_phys_from_virt, mem_is_valid_vaddr}
use quad_os.Paging.Valid.{
  interrupts_off, IsTableIndex, InUse, IsPaging, rec_pagetable-eq, rec_pagedir-eq,
}
use quad_os.Paging.Map.{Mapped, map_entry-Mapped}
use quad_os.Paging.Sync.{
  enter_kernel_dir-user, leave_kernel_dir-user, sync_from-other, enter_kernel_dir-eq,
  leave_kernel_dir-eq, in_initial, settled,
}
use quad_os.Paging.Edit.{
  HasTable-Edited, in_initial-IsPaging, user-Edited, kernel-Edited, kernel-after,
}

-- In the current directory of `q` the page of `virt` has the entry `pte`.
pub record Reaches (virt pte : ℕ) (q : Paging) : Type 0 where
  pub table : ℕ
  pub is_present : present (q.frames q.cr3 (pd_index virt)) ≡ true
  pub leads : p_phys_addr (q.frames q.cr3 (pd_index virt)) ≡ table
  pub entry : q.frames table (pt_index virt) ≡ pte

module _ (image : Image) (virt pte : ℕ) (q : Paging) (v : IsPaging image q)
    (r : Reaches virt pte q) where
  mapped : p_phys_addr (q.frames q.cr3 1023) ≡ q.cr3
  mapped = v.recursive q.cr3 v.current

  at_entry : q.frames (rec_pagetable q.frames q.cr3 (pd_index virt)) (pt_index virt) ≡ pte
  at_entry =
      ap (λ (t : ℕ). q.frames t (pt_index virt))
        (rec_pagetable-eq q.frames q.cr3 mapped (pd_index virt) ∙ r.leads)
      ∙ r.entry

  here : present (q.frames (rec_pagedir q.frames q.cr3) (pd_index virt)) ≡ true
  here =
      ap (λ (d : ℕ). present (q.frames d (pd_index virt))) (rec_pagedir-eq q.frames q.cr3 mapped)
      ∙ r.is_present

  pub phys-Reaches : mem_get_phys_from_virt virt q ≡ ok (p_phys_addr pte)
  unfolding mem_get_phys_from_virt
  phys-Reaches = simp (v.off, here, at_entry) refl

  pub is_valid-Reaches : mem_is_valid_vaddr virt q ≡ ok (present pte)
  unfolding mem_is_valid_vaddr
  is_valid-Reaches = simp (v.off, here, at_entry) refl

-- After a mapping of `virt` to `phys`: the lookups, the invariant and the current directory.
pub record PageMapped (image : Image) (p : Paging) (virt phys : ℕ) (q : Paging) : Type 0 where
  pub translated : mem_get_phys_from_virt virt q ≡ ok (p_phys_addr phys)
  pub is_valid : mem_is_valid_vaddr virt q ≡ ok true
  pub invariant : IsPaging image q
  pub same_cr3 : q.cr3 ≡ p.cr3

-- The entry that a mapping writes.
abbrev page_entry : ℕ → ℕ → ℕ
page_entry phys flags = bit_or (bit_or phys 1) flags

page_entry-addr :
    (phys flags : ℕ) → flags < 4096 → p_phys_addr (page_entry phys flags) ≡ p_phys_addr phys
page_entry-addr phys flags small =
    omega
      (arith, bit_or-flags (bit_or phys 1) flags (omega arith), bit_or-flags phys 1 (omega arith))

page_entry-present : (phys flags : ℕ) → present (page_entry phys flags) ≡ true
page_entry-present phys flags = ground (arith, bit_or-odd (bit_or phys 1) flags, bit_or-odd phys 1)

module _ (image : Image) (p : Paging) (v : IsPaging image p) (virt phys flags : ℕ)
    (index : IsTableIndex (pd_index virt)) (small : flags < 4096) where
  PageMapped-Reaches :
      (q : Paging)
      → IsPaging image q
      → q.cr3 ≡ p.cr3
      → Reaches virt (page_entry phys flags) q
      → PageMapped image p virt phys q
  PageMapped-Reaches q w same r = record {
    translated =
        phys-Reaches image virt (page_entry phys flags) q w r
        ∙ ap ok (page_entry-addr phys flags small);
    is_valid =
        is_valid-Reaches image virt (page_entry phys flags) q w r
        ∙ ap ok (page_entry-present phys flags);
    invariant = w;
    same_cr3 = same;
  }

  user_page :
      pd_index virt < 768
      → (q : Paging) → Mapped p virt (page_entry phys flags) q
      → PageMapped image p virt phys q
  user_page user q m =
      let h = m.has_table in
      let at : (i : ℕ) → q.frames q.cr3 i ≡ q.frames p.cr3 i =
        λ i. ap (λ (c : ℕ). q.frames c i) h.same_cr3 in
      PageMapped-Reaches q
        (user-Edited image p v (pd_index virt) q index.0 (HasTable-Edited p (pd_index virt) q h)
          user)
        h.same_cr3
        (record {
          table = h.table;
          is_present = ap present (at (pd_index virt)) ∙ h.is_present;
          leads = ap p_phys_addr (at (pd_index virt)) ∙ h.leads;
          entry = m.written;
        })

  kernel_page :
      768 ≤ pd_index virt
      → (q : Paging) → Mapped (in_initial image p) virt (page_entry phys flags) q
      → PageMapped image p virt phys (settled image p.cr3 q)
  kernel_page kernel q m =
      let h = m.has_table in
      let edited = HasTable-Edited (in_initial image p) (pd_index virt) q h in
      let same =
        kernel-after image p v (pd_index virt) q index.0 edited p.cr3 (pd_index virt)
          (subst (λ (used : List Bool). InUse image used p.cr3) (sym h.same_used) v.current) kernel
          index.0 in
      PageMapped-Reaches (settled image p.cr3 q)
        (kernel-Edited image p v (pd_index virt) q index.0 edited) refl
        (record {
          table = h.table;
          is_present = same.0 ∙ h.is_present;
          leads = same.1 ∙ h.leads;
          entry =
              sync_from-other image 256 0 q.page_dir_used q.frames h.table (pt_index virt) (
                inl (λ k le lt e.
                  omega (
                    arith, e, h.table_high, image.initial_above, image.initial_low, image.dirs_low,
                  )))
              ∙ m.written;
        })

  -- From a state with the invariant, with flags below 4096 and an address that is in no 4 MiB page and
  -- not in the recursive mapping, `mem_map_page` returns unless no page frame is free. Then the
  -- address translates to the page frame of `phys` and is valid, the invariant holds and the current
  -- directory is the same.
  pub map_page-translated :
      Delivers
        (pmm_alloc_pageframe p.pmm ≡ panic)
        (mem_map_page image virt phys flags p)
        (PageMapped image p virt phys)
  unfolding mem_map_page
  map_page-translated = elim (dec_le kernel_start virt) [
    | yes kernel ↦
        let prev = p.cr3 + kernel_start in
        simp (interrupts_off p v.off, enter_kernel_dir-eq image p v virt kernel)
          (Delivers-bind (pmm_alloc_pageframe p.pmm ≡ panic)
            (map_entry virt phys flags (in_initial image p)) (λ q. leave_kernel_dir image prev q) _
            (PageMapped image p virt phys)
            (map_entry-Mapped image (in_initial image p) (in_initial-IsPaging image p v) virt phys
              flags index small)
            (λ q m.
              let h = m.has_table in
              simp (leave_kernel_dir-eq image p v q h.same_cr3 (h.same_flag ∙ v.off))
                (kernel_page (omega arith) q m)))
    | no user ↦
        simp
          (
            interrupts_off p v.off,
            enter_kernel_dir-user image virt p (omega arith),
            leave_kernel_dir-user image,
          )
          (Delivers-bind (pmm_alloc_pageframe p.pmm ≡ panic) (map_entry virt phys flags p) _ _
            (PageMapped image p virt phys) (map_entry-Mapped image p v virt phys flags index small)
            (user_page (omega arith)))
  ]
