-- ===== src/Paging/Vanish.antt =====
-- kernel/memory.c: a page that `mem_unmap_page` has taken away is no longer valid.
use quad_os.Base.{
  ℕ, ◌+◌, ◌≤◌, ◌<◌, ◌≡◌, inl, inr, refl, sym, ap, ◌∙◌, Bool, true, false, List, ok, ◌>>=◌, Delivers,
  Delivers-bind, subst, dec_le, arith,
}
use quad_os.Paging.{
  Image, Paging, kernel_start, present, p_phys_addr, pd_index, pt_index, initial, leave_kernel_dir,
}
use quad_os.Paging.Pages.{unmap_entry, mem_unmap_page, mem_is_valid_vaddr}
use quad_os.Paging.Valid.{
  IsTableIndex, InUse, IsPaging, rec_pagetable-eq, rec_pagedir-eq, interrupts_off,
}
use quad_os.Paging.Edit.{
  Edited, in_initial-IsPaging, user-Edited, kernel-Edited, kernel-after, without_owner-present,
  without_owner-addr,
}
use quad_os.Paging.Sync.{
  sync_from-other, enter_kernel_dir-eq, leave_kernel_dir-eq, enter_kernel_dir-user,
  leave_kernel_dir-user, in_initial, settled,
}
use quad_os.Paging.Translate.{Reaches}
use quad_os.Paging.Unmap.{NotMarked, Gone, unmap_entry-Edited}

is_valid-Gone :
    (image : Image) (virt : ℕ) (q : Paging)
    → IsPaging image q
    → Gone virt q.frames q.cr3
    → mem_is_valid_vaddr virt q ≡ ok false
unfolding mem_is_valid_vaddr
is_valid-Gone image virt q v g =
    let mapped = v.recursive q.cr3 v.current in
    let dir = rec_pagedir-eq q.frames q.cr3 mapped in
    let tbl = rec_pagetable-eq q.frames q.cr3 mapped (pd_index virt) in
    elim g [ inl e ↦ simp (v.off, dir, e) refl | inr (e, f) ↦ simp (v.off, dir, tbl, e, f) refl ]

-- The steps inside one directory, for a table and an entry that are known by equations.
unmap_entry-at :
    (image : Image) (p : Paging) (virt table pte : ℕ)
    → IsPaging image p
    → IsTableIndex (pd_index virt)
    → present (p.frames p.cr3 (pd_index virt)) ≡ true
    → p_phys_addr (p.frames p.cr3 (pd_index virt)) ≡ table
    → p.frames table (pt_index virt) ≡ pte
    → present pte ≡ true
    → Delivers
        (NotMarked p table pte)
        (unmap_entry virt p)
        (λ t. (t.0 ≡ pte) × Edited p (pd_index virt) t.1 × Gone virt t.1.frames p.cr3)
unmap_entry-at image p virt table pte v index here leads entry has_page =
    let there = ap (λ (t : ℕ). p.frames t (pt_index virt)) leads ∙ entry in
    subst
      (λ (s : ℕ × ℕ).
        Delivers (NotMarked p s.0 s.1) (unmap_entry virt p)
          (λ t. (t.0 ≡ s.1) × Edited p (pd_index virt) t.1 × Gone virt t.1.frames p.cr3))
      (both leads there)
      (unmap_entry-Edited image p v virt index here (ap present there ∙ has_page))
  where
    both : {a b c d : ℕ} → a ≡ b → c ≡ d → ◌≡◌ {A = ℕ × ℕ} (a, c) (b, d)
    both e f = cc

-- After `virt` is unmapped: the result is the entry that was there, the page is no longer valid, the
-- invariant holds and the current directory is the same.
pub record PageUnmapped (image : Image) (p : Paging) (virt pte : ℕ) (t : ℕ × Paging) : Type 0 where
  pub returned : t.0 ≡ pte
  pub invalid : mem_is_valid_vaddr virt t.1 ≡ ok false
  pub invariant : IsPaging image t.1
  pub same_cr3 : t.1.cr3 ≡ p.cr3

module _ (image : Image) (p : Paging) (v : IsPaging image p) (virt pte : ℕ)
    (index : IsTableIndex (pd_index virt)) (r : Reaches virt pte p)
    (has_page : present pte ≡ true) where
  -- In the kernel's part the initial directory leads where the current one leads.
  initial_leads :
      768 ≤ pd_index virt
      → (present (p.frames (initial image) (pd_index virt)) ≡ true)
        × (p_phys_addr (p.frames (initial image) (pd_index virt)) ≡ r.table)
  initial_leads kernel = elim v.current [
    | inl e ↦
        let same : p.frames (initial image) (pd_index virt) ≡ p.frames p.cr3 (pd_index virt) =
          ap (λ (d : ℕ). p.frames d (pd_index virt)) (sym e) in
        (ap present same ∙ r.is_present, ap p_phys_addr same ∙ r.leads)
    | inr (k, lt, u, e) ↦
        let same =
          ap (λ (d : ℕ). p.frames d (pd_index virt)) e
          ∙ v.synced k lt u (pd_index virt) kernel index.0 in
        (
          sym (ap present same ∙ without_owner-present (p.frames (initial image) (pd_index virt)))
              ∙ r.is_present,
          sym (ap p_phys_addr same ∙ without_owner-addr (p.frames (initial image) (pd_index virt)))
              ∙ r.leads,
        )
  ]

  user_unmapped :
      pd_index virt < 768
      → (t : ℕ × Paging) → (t.0 ≡ pte) × Edited p (pd_index virt) t.1 × Gone virt t.1.frames p.cr3
      → PageUnmapped image p virt pte t
  user_unmapped user t h =
      let w = user-Edited image p v (pd_index virt) t.1 index.0 h.1 user in
      record {
        returned = h.0;
        invalid =
            is_valid-Gone image virt t.1 w
              (subst (λ (c : ℕ). Gone virt t.1.frames c) (sym h.1.same_cr3) h.2);
        invariant = w;
        same_cr3 = h.1.same_cr3;
      }

  module _ (kernel : 768 ≤ pd_index virt) (q : Paging)
      (h : Edited (in_initial image p) (pd_index virt) q) where
    settled-Gone :
        Gone virt q.frames (initial image) → Gone virt (settled image p.cr3 q).frames p.cr3
    settled-Gone g =
        let u = subst (λ (used : List Bool). InUse image used p.cr3) (sym h.same_used) v.current in
        let same =
          kernel-after image p v (pd_index virt) q index.0 h p.cr3 (pd_index virt) u kernel
            index.0 in
        elim g [
          | inl e ↦ inl (same.0 ∙ e)
          | inr (e, f) ↦ inr (
            same.0 ∙ e,
            ap (λ (t : ℕ). present ((settled image p.cr3 q).frames t (pt_index virt))) same.1
                ∙ ap present (
                    sync_from-other image 256 0 q.page_dir_used q.frames
                      (p_phys_addr (q.frames (initial image) (pd_index virt))) (pt_index virt)
                      (inl (λ k le lt same_frame. omega (
                        arith,
                        same_frame,
                        h.sound e,
                        image.initial_above,
                        image.initial_low,
                        image.dirs_low,
                      ))))
                ∙ f,
          )
        ]

    kernel_unmapped :
        Gone virt q.frames (initial image)
        → PageUnmapped image p virt pte (pte, settled image p.cr3 q)
    kernel_unmapped g =
        let w = kernel-Edited image p v (pd_index virt) q index.0 h in
        record {
          returned = refl;
          invalid = is_valid-Gone image virt (settled image p.cr3 q) w (settled-Gone g);
          invariant = w;
          same_cr3 = refl;
        }

  -- From a state with the invariant, for an address that is in no 4 MiB page and not in the recursive
  -- mapping and whose page is present, `mem_unmap_page` returns unless it releases a frame that is not
  -- in use. Then the result is the entry that was there, the page is no longer valid, the invariant
  -- holds and the current directory is the same.
  pub unmap_page-invalid :
      Delivers
        (NotMarked p r.table pte)
        (mem_unmap_page image virt p)
        (PageUnmapped image p virt pte)
  unfolding mem_unmap_page
  unmap_page-invalid = elim (dec_le kernel_start virt) [
    | yes kernel ↦
        let prev = p.cr3 + kernel_start in
        let at_768 : 768 ≤ pd_index virt = omega arith in
        let leads = initial_leads at_768 in
        simp (interrupts_off p v.off, enter_kernel_dir-eq image p v virt kernel)
          (Delivers-bind (NotMarked p r.table pte) (unmap_entry virt (in_initial image p))
            (λ t. leave_kernel_dir image prev t.1 >>= λ q. ok (t.0, q)) _
            (PageUnmapped image p virt pte)
            (unmap_entry-at image (in_initial image p) virt r.table pte
              (in_initial-IsPaging image p v) index leads.0 leads.1 r.entry has_page)
            (λ t h.
              simp (leave_kernel_dir-eq image p v t.1 h.1.same_cr3 (h.1.same_flag ∙ v.off), h.0)
                (kernel_unmapped at_768 t.1 h.1 h.2)))
    | no user ↦
        simp
          (
            interrupts_off p v.off,
            enter_kernel_dir-user image virt p (omega arith),
            leave_kernel_dir-user image,
          )
          (Delivers-bind (NotMarked p r.table pte) (unmap_entry virt p) _ _
            (PageUnmapped image p virt pte)
            (unmap_entry-at image p virt r.table pte v index r.is_present r.leads r.entry has_page)
            (user_unmapped (omega arith)))
  ]
