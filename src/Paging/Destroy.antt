-- ===== src/Paging/Destroy.antt =====
-- kernel/memory.c, `mem_free_page_dir`: the end of a page directory that is not the current one.
use quad_os.Base.{
  ℕ, ◌+◌, ◌-◌, ◌*◌, ◌/◌, ◌≤◌, ◌<◌, ◌≡◌, ◌≢◌, ◌⊎◌, inl, inr, refl, sym, ap, ◌∙◌, List, Bool, true,
  false, ltb, length, ok, get_or, set, get_or-set_self, get_or-set_ne, length-set, sub32, add32,
  Returns, Returns-bind, [], if◌then◌else◌, subst, ℕ_discrete, arith,
}
use quad_os.Paging.{
  Image, Paging, kernel_start, present, without_owner, p_phys_addr, initial, page_dir,
  mem_change_page_directory, mem_get_current_page_directory,
}
use quad_os.Paging.Directories.{free_tables, mem_free_page_dir}
use quad_os.Paging.Valid.{low_end, InUse, InUse-low, InUse-positive, IsPaging, interrupts_off}
use quad_os.Paging.Sync.{initial-ne, page_dir-injective}
use quad_os.Paging.Release.{Emptied, free_tables-Released}
use quad_os.Paging.Owned.{owned_tables, member, CanFree, Cleared, Released}
use quad_os.PhysAlloc.{is_pf_used}
use mathlib.Core.List.{append-nil}

-- `q` is `p` without the directory of the slot `s`: its part for the user is empty, its slot is free,
-- the frames that it owned are free and no others, and every other slot, every other frame of the
-- kernel's image and the current directory are as before.
pub record DirDestroyed (image : Image) (p : Paging) (s : ℕ) (q : Paging) : Type 0 where
  pub user_empty : (j : ℕ) → j < 768 → q.frames (page_dir image s) j ≡ 0
  pub slots : q.page_dir_used ≡ set p.page_dir_used s false
  pub others : (d j : ℕ) → d < low_end → d ≢ page_dir image s → q.frames d j ≡ p.frames d j
  pub freed :
      (f : ℕ)
      → is_pf_used q.pmm f ≡ (
          if member f (owned_tables 768 0 (page_dir image s) p.frames)
          then false
          else is_pf_used p.pmm f)
  pub same_cr3 : q.cr3 ≡ p.cr3
  pub invariant : IsPaging image q

module _ (image : Image) where
  change-eq :
      (d : ℕ) (p : Paging)
      → 0 < d
      → mem_change_page_directory (d + kernel_start) p ≡ ok (record p { cr3 = d })
  unfolding mem_change_page_directory
  change-eq d p pos =
      let above : ltb kernel_start (d + kernel_start) ≡ true = ground arith in
      let back : d + kernel_start - kernel_start ≡ d = omega arith in simp (above, back) refl

  module _ (p : Paging) (v : IsPaging image p) (s : ℕ) (inside : s < 256)
      (used : get_or p.page_dir_used s false ≡ true) (away : p.cr3 ≢ page_dir image s) where
    abbrev dir : ℕ
    dir = page_dir image s

    abbrev entered : Paging
    entered = record p { cr3 = dir }

    abbrev left : Paging → Paging
    left q = record q { page_dir_used = set q.page_dir_used s false; cr3 = p.cr3 }

    -- A directory in use after the release was in use, and is another one.
    before :
        (d : ℕ)
        → InUse image (set p.page_dir_used s false) d
        → (d ≢ dir) × InUse image p.page_dir_used d
    before d (inl e) = (λ same. initial-ne image s (sym e ∙ same), inl e)
    before d (inr (k, lt, u, e)) = elim (ℕ_discrete s k) [
      | yes same ↦ absurd (
          cc (
            u,
            ap (λ (t : ℕ). get_or (set p.page_dir_used s false) t false) same,
            get_or-set_self p.page_dir_used s false false (omega (arith, inside, v.slots)),
          ))
      | no ne ↦ (
        λ same. ne (page_dir-injective image s k (sym same ∙ e)),
        inr (k, lt, sym (get_or-set_ne p.page_dir_used s k false false ne) ∙ u, e),
      )
    ]

    dir-InUse : InUse image p.page_dir_used dir
    dir-InUse = inr (s, inside, used, refl)

    left-IsPaging : (q : Paging) → Emptied entered dir 768 q → IsPaging image (left q)
    left-IsPaging q h =
        let was : (d : ℕ)
            → InUse image (set q.page_dir_used s false) d
            → (d ≢ dir) × InUse image p.page_dir_used d =
          λ d u.
            before d (subst (λ (t : List Bool). InUse image (set t s false) d) h.same_used u) in
        let same : (d : ℕ)
            → d ≢ dir
            → InUse image p.page_dir_used d
            → (j : ℕ) → q.frames d j ≡ p.frames d j =
          λ d ne u j. h.low d j (InUse-low image p.page_dir_used d u) (inl ne) in
        record {
          off = h.same_flag ∙ v.off;
          slots = length-set q.page_dir_used s false ∙ ap length h.same_used ∙ v.slots;
          current =
              subst (λ (t : List Bool). InUse image (set t s false) p.cr3) (sym h.same_used)
                (elim v.current [
                  | inl e ↦ inl e
                  | inr (k, lt, u, e) ↦ inr (
                    k,
                    lt,
                    get_or-set_ne p.page_dir_used s k false false
                          (λ eq. away (e ∙ ap (page_dir image) (sym eq)))
                        ∙ u,
                    e,
                  )
                ]);
          recursive = λ d u.
              ap p_phys_addr (same d (was d u).0 (was d u).1 1023) ∙ v.recursive d (was d u).1;
          tables = λ d u j index e.
              let here = same d (was d u).0 (was d u).1 j in
              let high = v.tables d (was d u).1 j index (ap present (sym here) ∙ e) in
              omega (arith, here, high);
          synced = λ k lt u j from to.
              let w = was (page_dir image k) (inr (k, lt, u, refl)) in
              same (page_dir image k) w.0 w.1 j
              ∙ elim w.1 [
                | inl e ↦ absurd (initial-ne image k (sym e))
                | inr (i, at, there, e) ↦
                    ap (λ (t : ℕ). p.frames t j) e ∙ v.synced i at there j from to
              ]
              ∙ ap without_owner (sym (same (initial image) (initial-ne image s) (inl refl) j));
          allocator = h.kept.0;
          first_frame = h.kept.1;
        }

    left-DirDestroyed :
        (q : Paging)
        → Emptied entered dir 768 q
        → Cleared p.pmm (owned_tables 768 0 dir p.frames) q.pmm
        → DirDestroyed image p s (left q)
    left-DirDestroyed q h freed = record {
      user_empty = h.empty;
      slots = ap (λ (t : List Bool). set t s false) h.same_used;
      others = λ d j lo ne. h.low d j lo (inl ne);
      freed = freed;
      same_cr3 = refl;
      invariant = left-IsPaging q h;
    }

    empty_or_high :
        ((j : ℕ) → j < 768 → (p.frames dir j ≡ 0) ⊎ (present (p.frames dir j) ≡ true))
        → (j : ℕ) → j < 768
        → (p.frames dir j ≡ 0) ⊎ (low_end ≤ p_phys_addr (p.frames dir j))
    empty_or_high user j lt = elim (user j lt) [
      | inl none ↦ inl none
      | inr e ↦ inr (v.tables dir dir-InUse j (omega arith, inl lt) e)
    ]

    -- From a state with the invariant, `mem_free_page_dir` on a directory that is in use and is not the
    -- current one returns, if in the user's part its entries are 0 or present, its tables are different
    -- frames, and the frames that it owns are in use and none is owned twice. Then exactly those frames
    -- have been released, the user's part of that directory is empty, its slot is free, every other slot
    -- and every other frame below 4 MiB is as before, the current directory is again the one before,
    -- and the invariant holds.
    pub free_page_dir-destroyed :
        ((j : ℕ) → j < 768 → (p.frames dir j ≡ 0) ⊎ (present (p.frames dir j) ≡ true))
        → ((i k : ℕ)
            → i < 768
            → k < i
            → p.frames dir i ≢ 0
            → p.frames dir k ≢ 0
            → p_phys_addr (p.frames dir i) ≢ p_phys_addr (p.frames dir k))
        → CanFree p.pmm (owned_tables 768 0 dir p.frames)
        → Returns (mem_free_page_dir image (image.page_dirs + s * 4096) p) (DirDestroyed image p s)
    unfolding mem_free_page_dir mem_get_current_page_directory
    free_page_dir-destroyed user apart can =
        let enter : mem_change_page_directory (image.page_dirs + s * 4096) p ≡ ok entered =
          ap (λ (t : ℕ). mem_change_page_directory t p)
            (omega (arith, image.initial_above, image.initial_low))
          ∙ change-eq dir p (InUse-positive image p.page_dir_used dir dir-InUse) in
        let slot : sub32 (image.page_dirs + s * 4096) image.page_dirs / 4096 ≡ s =
          omega (arith, image.initial_above, image.initial_low, image.dirs_low) in
        let back : add32 p.cr3 kernel_start ≡ p.cr3 + kernel_start =
          omega (arith, InUse-low image p.page_dir_used p.cr3 v.current) in
        simp (interrupts_off p v.off, enter, slot, back)
          (Returns-bind (free_tables 768 0 entered) _
            (λ q.
              Emptied entered dir 768 q × Released p.pmm (owned_tables 768 0 dir p.frames) [] q.pmm)
            _
            (free_tables-Released entered dir (InUse-low image p.page_dir_used dir dir-InUse)
              (v.recursive dir dir-InUse) (empty_or_high user) apart 768 0 refl entered
              (record {
                empty = λ j lt. absurd (omega arith);
                low = λ g j lo out. refl;
                at_dir = refl;
                same_used = refl;
                same_flag = refl;
                others = λ g j ne out. refl;
                kept = (v.allocator, v.first_frame);
              })
              (subst (CanFree p.pmm) (sym (append-nil (owned_tables 768 0 dir p.frames))) can))
            (λ q h.
              rw
                (change-eq p.cr3 (record q { page_dir_used = set q.page_dir_used s false })
                  (InUse-positive image p.page_dir_used p.cr3 v.current))
                (left-DirDestroyed q h.0 h.1.cleared)))
