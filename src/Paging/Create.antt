-- ===== src/Paging/Create.antt =====
-- kernel/memory.c, `mem_alloc_page_dir`: what the new directory holds.
use quad_os.Base.{
  ℕ, ◌+◌, ◌*◌, ◌%◌, ◌≤◌, ◌<◌, ◌≡◌, ◌≢◌, ◌⊎◌, inl, inr, refl, sym, ap, ◌∙◌, true, false, get_or, set,
  get_or-set_ne, length-set, Delivers, Delivers-bind, subst, ℕ_discrete, arith,
}
use quad_os.Paging.{Image, Paging, present, without_owner, p_phys_addr, initial, page_dir}
use quad_os.Paging.Directories.{find_free_dir, mem_alloc_page_dir}
use quad_os.Paging.Valid.{low_end, IsTableIndex, InUse, IsPaging, interrupts_off}
use quad_os.Paging.Edit.{without_owner-present, without_owner-addr}
use quad_os.Paging.Sync.{initial-ne, page_dir-injective}
use quad_os.Paging.Build.{
  find_free_dir-lowest, built, built-other, built-user, built-kernel, built-recursive,
}

-- `q` is `p` with the directory `addr` more: its part for the user is empty, it shares the kernel's, it was free, and no other directory has changed.
pub record DirCreated (image : Image) (p : Paging) (addr : ℕ) (q : Paging) : Type 0 where
  pub slot : ℕ
  pub slot_free : (slot < 256) × (get_or p.page_dir_used slot false ≡ false)
  pub address : addr ≡ image.page_dirs + slot * 4096
  pub user_empty : (j : ℕ) → j < 768 → q.frames (page_dir image slot) j ≡ 0
  pub kernel_shared :
      (j : ℕ)
      → 768 ≤ j
      → j < 1023
      → q.frames (page_dir image slot) j ≡ without_owner (p.frames (initial image) j)
  pub others : (d j : ℕ) → d ≢ page_dir image slot → q.frames d j ≡ p.frames d j
  pub invariant : IsPaging image q

module _ (image : Image) (p : Paging) (v : IsPaging image p) where
  module _ (s : ℕ) (inside : s < 256) (free : get_or p.page_dir_used s false ≡ false) where
    abbrev dir : ℕ
    dir = page_dir image s

    abbrev pub created : Paging
    created = record p {
      page_dir_used = set p.page_dir_used s true;
      frames = built (initial image) dir p.frames;
    }

    -- A directory in use is the new one or one that was in use.
    before-created :
        (d : ℕ)
        → InUse image (set p.page_dir_used s true) d
        → (d ≡ dir) ⊎ ((d ≢ dir) × InUse image p.page_dir_used d)
    before-created d (inl e) = inr (λ same. initial-ne image s (sym e ∙ same), inl e)
    before-created d (inr (k, lt, u, e)) = elim (ℕ_discrete s k) [
      | yes same ↦ inl (e ∙ ap (page_dir image) (sym same))
      | no ne ↦ inr (
        λ same. ne (page_dir-injective image s k (sym same ∙ e)),
        inr (k, lt, sym (get_or-set_ne p.page_dir_used s k true false ne) ∙ u, e),
      )
    ]

    aligned : dir % 4096 ≡ 0
    aligned = omega (arith, image.dirs_aligned, image.initial_above, image.initial_low)

    still_used :
        (k : ℕ)
        → get_or p.page_dir_used k false ≡ true
        → get_or (set p.page_dir_used s true) k false ≡ true
    still_used k u =
        let ne : s ≢ k =
          λ same. cc (ap (λ (t : ℕ). get_or p.page_dir_used t false) same, free, u) in
        get_or-set_ne p.page_dir_used s k true false ne ∙ u

    same_high :
        (d j : ℕ) (entry : ℕ)
        → built (initial image) dir p.frames d j ≡ entry
        → present (created.frames d j) ≡ true
        → (present entry ≡ true → low_end ≤ p_phys_addr entry)
        → low_end ≤ p_phys_addr (created.frames d j)
    same_high d j entry same e high = omega (arith, same, high (ap present (sym same) ∙ e))

    tables-created :
        (d : ℕ)
        → InUse image created.page_dir_used d
        → (j : ℕ) → IsTableIndex j
        → present (created.frames d j) ≡ true
        → low_end ≤ p_phys_addr (created.frames d j)
    tables-created d u j index e = elim (before-created d u) [
      | inl at ↦
          let here : built (initial image) dir p.frames d j
              ≡ built (initial image) dir p.frames dir j =
            ap (λ (t : ℕ). built (initial image) dir p.frames t j) at in
          elim index.1 [
            | inl user ↦
                same_high d j 0 (here ∙ built-user (initial image) dir p.frames j user) e
                  (λ wrong. ground arith)
            | inr kernel ↦
                same_high d j (without_owner (p.frames (initial image) j))
                  (here
                    ∙ built-kernel (initial image) dir p.frames j (initial-ne image s) (omega arith)
                        index.0)
                  e
                  (λ there.
                    let high =
                      v.tables (initial image) (inl refl) j index
                        (sym (without_owner-present (p.frames (initial image) j)) ∙ there) in
                    omega (arith, high, without_owner-addr (p.frames (initial image) j)))
          ]
      | inr (ne, w) ↦
          same_high d j (p.frames d j) (built-other (initial image) dir p.frames d j ne) e
            (v.tables d w j index)
    ]

    synced-created :
        (k : ℕ)
        → k < 256
        → get_or created.page_dir_used k false ≡ true
        → (j : ℕ) → 768 ≤ j
        → j < 1023
        → created.frames (page_dir image k) j ≡ without_owner (p.frames (initial image) j)
    synced-created k lt u j from to = elim (ℕ_discrete s k) [
      | yes same ↦
          subst
            (λ (t : ℕ).
              created.frames (page_dir image t) j ≡ without_owner (p.frames (initial image) j))
            same (built-kernel (initial image) dir p.frames j (initial-ne image s) from to)
      | no ne ↦
          built-other (initial image) dir p.frames (page_dir image k) j
            (λ same. ne (page_dir-injective image s k (sym same)))
          ∙ v.synced k lt (sym (get_or-set_ne p.page_dir_used s k true false ne) ∙ u) j from to
    ]

    pub created-IsPaging : IsPaging image created
    created-IsPaging = record {
      off = v.off;
      slots = length-set p.page_dir_used s true ∙ v.slots;
      current = elim v.current [
        | inl e ↦ inl e
        | inr (k, lt, u, e) ↦ inr (k, lt, still_used k u, e)
      ];
      recursive = λ d u. elim (before-created d u) [
        | inl e ↦
            ap (λ (t : ℕ). p_phys_addr (created.frames t 1023)) e
            ∙ built-recursive (initial image) dir p.frames aligned
            ∙ sym e
        | inr (ne, w) ↦
            ap p_phys_addr (built-other (initial image) dir p.frames d 1023 ne) ∙ v.recursive d w
      ];
      tables = tables-created;
      synced = λ k lt u j from to.
          synced-created k lt u j from to
          ∙ ap without_owner (
              sym
                (built-other (initial image) dir p.frames (initial image) j (initial-ne image s)));
      allocator = v.allocator;
      first_frame = v.first_frame;
    }

  -- From a state with the invariant `mem_alloc_page_dir` returns unless every slot is in use. Then the
  -- directory was free, its part for the user is empty, its part for the kernel is that of the initial
  -- directory without the marks of ownership, no other directory has changed and the invariant holds.
  pub alloc_page_dir-created :
      Delivers
        ((k : ℕ) → 0 ≤ k → k < 256 → get_or p.page_dir_used k false ≡ true)
        (mem_alloc_page_dir image p)
        (λ t. DirCreated image p t.0 t.1)
  unfolding mem_alloc_page_dir
  alloc_page_dir-created = simp (interrupts_off p v.off) (
      Delivers-bind ((k : ℕ) → 0 ≤ k → k < 256 → get_or p.page_dir_used k false ≡ true)
        (find_free_dir 256 p.page_dir_used 0) _ _ _ (find_free_dir-lowest 256 0 p.page_dir_used)
        (λ s h. record {
          slot = s;
          slot_free = (h.1, h.2);
          address = refl;
          user_empty = built-user (initial image) (page_dir image s) p.frames;
          kernel_shared = λ j from to.
              built-kernel (initial image) (page_dir image s) p.frames j (initial-ne image s) from
                to;
          others = λ d j ne. built-other (initial image) (page_dir image s) p.frames d j ne;
          invariant = created-IsPaging s h.1 h.2;
        }))
