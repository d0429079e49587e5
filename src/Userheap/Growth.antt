-- ===== src/Userheap/Growth.antt =====
-- kernel/userheap.c: what a move of the heap's end does in each direction.
use quad_os.Base.{
  ℕ, zero, suc, ◌+◌, ◌-◌, ◌*◌, ◌≤◌, ◌<◌, ◌≡◌, inl, inr, refl, sym, subst, ◌∙◌, Bool, true, false,
  ltb, Bool-cases, ceil_div, page_size, add32, ok, panic, Delivers, Delivers-bind, Delivers-map,
  Delivers-stop, arith,
}
use quad_os.PhysAlloc.{Pmm, pmm_alloc_pageframe}
use quad_os.PhysAlloc.Valid
use quad_os.Tasks.{Task}
use quad_os.Paging.{Image, Paging}
use quad_os.Paging.Pages.{mem_map_page, mem_is_valid_vaddr}
use quad_os.Paging.Valid.{IsPaging}
use quad_os.Paging.Map.{frame-high}
use quad_os.Paging.Translate.{PageMapped, map_page-translated}
use quad_os.Userheap.{grow_heap, set_user_heap_end, heap_page_flags}

positive : (left : ℕ) → ltb 0 (suc left) ≡ false → ⊥
positive left wrong = ground arith

module _ (image : Image) where
  with_pmm-IsPaging :
      (p : Paging) (pmm : Pmm)
      → IsPaging image p
      → Valid.IsValid pmm
      → pmm.page_frame_min ≡ 1024
      → IsPaging image (record p { pmm = pmm })
  with_pmm-IsPaging p pmm v w first = record {
    off = v.off;
    slots = v.slots;
    current = v.current;
    recursive = v.recursive;
    tables = v.tables;
    synced = v.synced;
    allocator = w;
    first_frame = first;
  }

  -- The invariant holds and the directory is the same; with a page at all, the last one is valid.
  pub record Grown (top : ℕ) (some_page : Bool) (p q : Paging) : Type 0 where
    pub invariant : IsPaging image q
    pub same_cr3 : q.cr3 ≡ p.cr3
    pub idle : some_page ≡ false → q ≡ p
    pub last_valid : some_page ≡ true → mem_is_valid_vaddr ((top - 1) * 0x1000) q ≡ ok true

  more :
      (left i old : ℕ) {phys : ℕ} (p : Paging) {pmm : Pmm} (q q' : Paging)
      → (old + i + suc left) * 0x1000 ≤ 0xb000_0000
      → PageMapped image (record p { pmm = pmm }) (add32 (old * 0x1000) (i * 0x1000)) phys q
      → Grown (old + (i + 1) + left) (ltb 0 left) q q'
      → Grown (old + i + suc left) (ltb 0 (suc left)) p q'
  more left i old p q q' fits m g = record {
    invariant = g.invariant;
    same_cr3 = g.same_cr3 ∙ m.same_cr3;
    idle = λ wrong. absurd (positive left wrong);
    last_valid = λ some. elim (Bool-cases (ltb 0 left)) [
      | inl e ↦
          let same : (old + (i + 1) + left - 1) * 0x1000 ≡ (old + i + suc left - 1) * 0x1000 =
            omega arith in
          subst (λ (a : ℕ). mem_is_valid_vaddr a q' ≡ ok true) same (g.last_valid e)
      | inr e ↦
          let here : add32 (old * 0x1000) (i * 0x1000) ≡ (old + i + suc left - 1) * 0x1000 =
            ground arith in
          subst (λ (a : ℕ). mem_is_valid_vaddr a q' ≡ ok true) here
            (subst
              (λ (r : Paging). mem_is_valid_vaddr (add32 (old * 0x1000) (i * 0x1000)) r ≡ ok true)
              (sym (g.idle e)) m.is_valid)
    ];
  }

  grow_heap-Grown :
      (left i old : ℕ) (p : Paging)
      → IsPaging image p
      → (old + i + left) * 0x1000 ≤ 0xb000_0000
      → Delivers Unit (grow_heap image left i old p) (Grown (old + i + left) (ltb 0 left) p)
  unfolding grow_heap
  grow_heap-Grown zero i old p v fits = record {
    invariant = v;
    same_cr3 = refl;
    idle = λ none. refl;
    last_valid = λ wrong. absurd (ff wrong);
  }
    where
      ff : false ≡ true → ⊥
      ff e = cc
  grow_heap-Grown (suc left) i old p v fits =
      Delivers-bind Unit (pmm_alloc_pageframe p.pmm) _ _ _
        (Delivers-stop (pmm_alloc_pageframe p.pmm ≡ panic) Unit (pmm_alloc_pageframe p.pmm) _
          (λ stop. tt) (frame-high p.pmm v.allocator v.first_frame))
        (λ t h.
          let p₁ = record p { pmm = t.1 } in
          let virt = add32 (old * 0x1000) (i * 0x1000) in
          let v₁ = with_pmm-IsPaging p t.1 v h.2 h.3 in
          Delivers-bind Unit (mem_map_page image virt t.0 heap_page_flags p₁) _
            (PageMapped image p₁ virt t.0) _
            (Delivers-stop (pmm_alloc_pageframe p₁.pmm ≡ panic) Unit
              (mem_map_page image virt t.0 heap_page_flags p₁) _ (λ stop. tt)
              (map_page-translated image p₁ v₁ virt t.0 heap_page_flags
                (omega arith, inl (omega arith)) (omega arith)))
            (λ q m.
              Delivers-map Unit (grow_heap image left (i + 1) old q) _ _
                (grow_heap-Grown left (i + 1) old q m.invariant (omega arith))
                (λ q' g. more left i old p q q' fits m g)))

  -- From a state of the paging with the invariant, for an end above the start of the heap and ends in
  -- the user's part of the address space: an end in a later page returns, or stops the machine, and
  -- then the end is the new one, the last page of the heap is valid, the invariant holds and the
  -- current directory is the same. An end in an earlier page stops the machine. In the same page only
  -- the end moves.
  pub set_user_heap_end-Grown :
      (new_heap_end : ℕ) (task : Task) (p : Paging)
      → IsPaging image p
      → task.heap_start < new_heap_end
      → 0 < task.heap_end
      → task.heap_end ≤ 0xb000_0000
      → new_heap_end ≤ 0xb000_0000
      → (ceil_div task.heap_end page_size < ceil_div new_heap_end page_size
          → Delivers Unit (set_user_heap_end image new_heap_end task p) (λ t.
            (t.0 ≡ record task { heap_end = new_heap_end })
            × Grown (ceil_div new_heap_end page_size) true p t.1))
        × (ceil_div new_heap_end page_size < ceil_div task.heap_end page_size
            → set_user_heap_end image new_heap_end task p ≡ panic)
        × (ceil_div task.heap_end page_size ≡ ceil_div new_heap_end page_size
            → set_user_heap_end image new_heap_end task p
              ≡ ok (record task { heap_end = new_heap_end }, p))
  unfolding set_user_heap_end
  set_user_heap_end-Grown new_heap_end task p v above some low high =
      let started : ltb task.heap_start new_heap_end ≡ true = ground arith in
      let old = ceil_div task.heap_end page_size in
      let new = ceil_div new_heap_end page_size in
      (
        λ up.
            let grows : ltb old new ≡ true = ground arith in
            let count = new - old in
            let fits : (old + 0 + count) * 0x1000 ≤ 0xb000_0000 = omega arith in
            let top : old + 0 + count ≡ new = omega arith in
            let some_page : ltb 0 count ≡ true = ground arith in
            simp (started, grows)
              (Delivers-bind Unit (grow_heap image count 0 old p) _
                (Grown (old + 0 + count) (ltb 0 count) p) _ (grow_heap-Grown count 0 old p v fits)
                (λ q g. (
                  refl,
                  subst (λ (k : ℕ). Grown k true p q) top
                      (subst (λ (b : Bool). Grown (old + 0 + count) b p q) some_page g),
                ))),
        λ down.
            let grows : ltb old new ≡ false = ground arith in
            let shrinks : ltb new old ≡ true = ground arith in simp (started, grows, shrinks) refl,
        λ same.
            let grows : ltb old new ≡ false = ground arith in
            let shrinks : ltb new old ≡ false = ground arith in simp (started, grows, shrinks) refl,
      )
