-- ===== src/Paging/Edit.antt =====
-- kernel/memory.c: an edit of one entry of the current page directory keeps the invariant; one of the
-- kernel's part does so once the copies are made.
use quad_os.Base.{
  ℕ, ◌≤◌, ◌<◌, ◌≡◌, ◌≢◌, ◌⊎◌, inl, inr, refl, sym, ap, ◌∙◌, Bool, true, false, List, get_or, length,
  ℕ_discrete, subst, arith,
}
use quad_os.PhysAlloc
use quad_os.Paging.{
  Image, Paging, Frames, present, without_owner, p_phys_addr, sync_from, initial, page_dir,
}
use quad_os.Paging.Valid.{low_end, IsTableIndex, InUse, InUse-low, IsPaging}
use quad_os.Paging.Map.{HasTable}
use quad_os.Paging.Sync.{initial-ne, sync_from-other, sync_from-inside, in_initial, settled}

-- `q` is `p` with another entry `j` in the current directory, which leads to no low frame, and
-- other tables.
pub record Edited (p : Paging) (j : ℕ) (q : Paging) : Type 0 where
  pub sound : present (q.frames p.cr3 j) ≡ true → low_end ≤ p_phys_addr (q.frames p.cr3 j)
  pub low : (g i : ℕ) → g < low_end → (g ≢ p.cr3) ⊎ (i ≢ j) → q.frames g i ≡ p.frames g i
  pub same_cr3 : q.cr3 ≡ p.cr3
  pub same_used : q.page_dir_used ≡ p.page_dir_used
  pub same_flag : q.interrupts_enabled ≡ p.interrupts_enabled
  pub allocator : PhysAlloc.Valid.IsValid q.pmm
  pub first_frame : q.pmm.page_frame_min ≡ 1024

pub HasTable-Edited : (p : Paging) (j : ℕ) (q : Paging) → HasTable p j q → Edited p j q
HasTable-Edited p j q h = record {
  sound = λ e. omega (arith, h.leads, h.table_high);
  low = h.low;
  same_cr3 = h.same_cr3;
  same_used = h.same_used;
  same_flag = h.same_flag;
  allocator = h.allocator;
  first_frame = h.first_frame;
}

pub without_owner-present : (e : ℕ) → present (without_owner e) ≡ present e
without_owner-present e = ground arith

pub without_owner-addr : (e : ℕ) → p_phys_addr (without_owner e) ≡ p_phys_addr e
without_owner-addr e = ground arith

-- An entry leads to a high frame if it is present.
abbrev LeadsHigh : ℕ → Type 0
LeadsHigh e = present e ≡ true → low_end ≤ p_phys_addr e

LeadsHigh-eq : {e f : ℕ} → e ≡ f → LeadsHigh f → LeadsHigh e
LeadsHigh-eq same h here = omega (arith, same, h (ap present (sym same) ∙ here))

module _ (image : Image) (p : Paging) (v : IsPaging image p) where
  pub in_initial-IsPaging : IsPaging image (in_initial image p)
  in_initial-IsPaging = record {
    off = v.off;
    slots = v.slots;
    current = inl refl;
    recursive = v.recursive;
    tables = v.tables;
    synced = v.synced;
    allocator = v.allocator;
    first_frame = v.first_frame;
  }

  module _ (j : ℕ) (q : Paging) (inner : j < 1023) (h : Edited p j q) where
    used-before : (d : ℕ) → InUse image q.page_dir_used d → InUse image p.page_dir_used d
    used-before d u = subst (λ (used : List Bool). InUse image used d) h.same_used u

    low_dir : (d : ℕ) → InUse image q.page_dir_used d → d < low_end
    low_dir d u = InUse-low image p.page_dir_used d (used-before d u)

    current-edited : InUse image q.page_dir_used q.cr3
    current-edited =
        subst (λ (used : List Bool). InUse image used q.cr3) (sym h.same_used)
          (subst (λ (c : ℕ). InUse image p.page_dir_used c) (sym h.same_cr3) v.current)

    recursive-edited : (d : ℕ) → InUse image q.page_dir_used d → p_phys_addr (q.frames d 1023) ≡ d
    recursive-edited d u =
        ap p_phys_addr (h.low d 1023 (low_dir d u) (inr (omega arith)))
        ∙ v.recursive d (used-before d u)

    tables-edited :
        (d : ℕ)
        → InUse image q.page_dir_used d
        → (i : ℕ) → IsTableIndex i
        → present (q.frames d i) ≡ true
        → low_end ≤ p_phys_addr (q.frames d i)
    tables-edited d u i index e =
        let same : (d ≢ p.cr3) ⊎ (i ≢ j) → low_end ≤ p_phys_addr (q.frames d i) = λ other.
          LeadsHigh-eq (h.low d i (low_dir d u) other) (v.tables d (used-before d u) i index) e in
        elim (ℕ_discrete d p.cr3) [
          | yes ed ↦ elim (ℕ_discrete i j) [
            | yes ei ↦
                LeadsHigh-eq (ap (λ (t : ℕ). q.frames t i) ed ∙ ap (λ (t : ℕ). q.frames p.cr3 t) ei)
                  h.sound e
            | no ni ↦ same (inr ni)
          ]
          | no nd ↦ same (inl nd)
        ]

    pub user-Edited : j < 768 → IsPaging image q
    user-Edited user = record {
      off = h.same_flag ∙ v.off;
      slots = ap length h.same_used ∙ v.slots;
      current = current-edited;
      recursive = recursive-edited;
      tables = tables-edited;
      synced = λ i lt u k from to.
          h.low (page_dir image i) k (low_dir _ (inr (i, lt, u, refl))) (inr (omega arith))
          ∙ v.synced i lt (ap (λ (used : List Bool). get_or used i false) (sym h.same_used) ∙ u) k
              from to
          ∙ ap without_owner
              (sym (h.low (initial image) k (low_dir _ (inl refl)) (inr (omega arith))));
      allocator = h.allocator;
      first_frame = h.first_frame;
    }

module _ (image : Image) (p : Paging) (v : IsPaging image p) where
  module _ (j : ℕ) (q : Paging) (inner : j < 1023) (h : Edited (in_initial image p) j q) where
    abbrev v' : IsPaging image (in_initial image p)
    v' = in_initial-IsPaging image p v

    abbrev after : Frames
    after = sync_from image 256 0 q.page_dir_used q.frames

    pub initial-after : (i : ℕ) → after (initial image) i ≡ q.frames (initial image) i
    initial-after i =
        sync_from-other image 256 0 q.page_dir_used q.frames (initial image) i
          (inl (λ k le lt. initial-ne image k))

    pub outside-after : (g i : ℕ) → (i < 768) ⊎ (1023 ≤ i) → after g i ≡ q.frames g i
    outside-after g i out = sync_from-other image 256 0 q.page_dir_used q.frames g i (inr out)

    pub copied-after :
        (k i : ℕ)
        → k < 256
        → get_or q.page_dir_used k false ≡ true
        → 768 ≤ i
        → i < 1023
        → after (page_dir image k) i ≡ without_owner (q.frames (initial image) i)
    copied-after k i lt u from to =
        sync_from-inside image 256 0 q.page_dir_used q.frames k i (omega arith) lt u from to

    -- Of a directory in use, an entry of the kernel's part leads where the initial one leads.
    pub kernel-after :
        (d i : ℕ)
        → InUse image q.page_dir_used d
        → 768 ≤ i
        → i < 1023
        → (present (after d i) ≡ present (q.frames (initial image) i))
          × (p_phys_addr (after d i) ≡ p_phys_addr (q.frames (initial image) i))
    kernel-after d i (inl e) from to =
        let same : after d i ≡ q.frames (initial image) i =
          ap (λ (t : ℕ). after t i) e ∙ initial-after i in
        (ap present same, ap p_phys_addr same)
    kernel-after d i (inr (k, lt, u, e)) from to =
        let same : after d i ≡ without_owner (q.frames (initial image) i) =
          ap (λ (t : ℕ). after t i) e ∙ copied-after k i lt u from to in
        (
          ap present same ∙ without_owner-present (q.frames (initial image) i),
          ap p_phys_addr same ∙ without_owner-addr (q.frames (initial image) i),
        )

    tables-after :
        (d : ℕ)
        → InUse image q.page_dir_used d
        → (i : ℕ) → IsTableIndex i
        → present (after d i) ≡ true
        → low_end ≤ p_phys_addr (after d i)
    tables-after d u i (inner_i, inl user) e =
        LeadsHigh-eq (outside-after d i (inl user))
          (tables-edited image (in_initial image p) v' j q inner h d u i (inner_i, inl user)) e
    tables-after d u i (inner_i, inr kernel) e =
        let k = kernel-after d i u (omega arith) inner_i in
        let high =
          tables-edited image (in_initial image p) v' j q inner h (initial image) (inl refl) i
            (inner_i, inr kernel) (sym k.0 ∙ e) in
        omega (arith, k.1, high)

    pub kernel-Edited : IsPaging image (settled image p.cr3 q)
    kernel-Edited = record {
      off = h.same_flag ∙ v.off;
      slots = ap length h.same_used ∙ v.slots;
      current = subst (λ (used : List Bool). InUse image used p.cr3) (sym h.same_used) v.current;
      recursive = λ d u.
          ap p_phys_addr (outside-after d 1023 (inr (omega arith)))
          ∙ recursive-edited image (in_initial image p) v' j q inner h d u;
      tables = tables-after;
      synced = λ i lt u k from to.
          copied-after i k lt u from to ∙ ap without_owner (sym (initial-after k));
      allocator = h.allocator;
      first_frame = h.first_frame;
    }
