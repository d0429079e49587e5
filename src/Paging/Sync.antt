-- ===== src/Paging/Sync.antt =====
-- kernel/memory.c, `sync_page_dirs`: what the copies of the kernel's part hold, and the steps around
-- a change of that part.
use quad_os.Base.{
  ℕ, zero, suc, ◌+◌, ◌-◌, ◌%◌, ◌≤◌, ◌<◌, ◌≡◌, ◌≢◌, ◌⊎◌, inl, inr, refl, sym, ap, ◌∙◌, Bool, true,
  false, Bool-cases, leb, ltb, u32_mod, List, if◌then◌else◌, ◌==◌, ==_iff, get_or, ok, ℕ_discrete,
  subst, arith,
}
use quad_os.Paging.{
  Image, Paging, Frames, kernel_start, without_owner, write, copy_kernel, sync_from, initial,
  page_dir, enter_kernel_dir, leave_kernel_dir,
}
use quad_os.Paging.Valid.{InUse-low, InUse-positive, IsPaging, write-same, write-other}

pub copy_kernel-other :
    (left i from dir : ℕ) (frames : Frames) (g j : ℕ)
    → (g ≢ dir) ⊎ ((j < i) ⊎ (i + left ≤ j))
    → copy_kernel left i from dir frames g j ≡ frames g j
unfolding copy_kernel
copy_kernel-other zero i from dir frames g j h = refl
copy_kernel-other (suc left) i from dir frames g j h =
    copy_kernel-other left (i + 1) from dir (write dir i (without_owner (frames from i)) frames) g j
      (ground arith)
    ∙ write-other dir i (without_owner (frames from i)) frames g j (ground arith)

pub copy_kernel-inside :
    (left i from dir : ℕ) (frames : Frames) (j : ℕ)
    → from ≢ dir
    → i ≤ j
    → j < i + left
    → copy_kernel left i from dir frames dir j ≡ without_owner (frames from j)
unfolding copy_kernel
copy_kernel-inside zero i from dir frames j ne lo hi = absurd (omega arith)
copy_kernel-inside (suc left) i from dir frames j ne lo hi =
    let frames' = write dir i (without_owner (frames from i)) frames in
    elim (ℕ_discrete i j) [
      | yes e ↦
          copy_kernel-other left (i + 1) from dir frames' dir j (inr (inl (omega arith)))
          ∙ subst (λ (t : ℕ). frames' dir t ≡ without_owner (frames from t)) e
              (write-same dir i (without_owner (frames from i)) frames)
      | no far ↦
          copy_kernel-inside left (i + 1) from dir frames' j ne (omega arith) (omega arith)
          ∙ ap without_owner
              (write-other dir i (without_owner (frames from i)) frames from j (inl ne))
    ]

module _ (image : Image) where
  pub page_dir-injective : (i k : ℕ) → page_dir image i ≡ page_dir image k → i ≡ k
  page_dir-injective i k e = omega arith

  pub initial-ne : (i : ℕ) → initial image ≢ page_dir image i
  initial-ne i e = omega (arith, image.initial_above, image.initial_low)

  -- One round of the loop, for the slot `i`.
  abbrev round : ℕ → List Bool → Frames → Frames
  round i used frames =
      if get_or used i false
      then copy_kernel 255 768 (initial image) (page_dir image i) frames
      else frames

  round-other :
      (i : ℕ) (used : List Bool) (frames : Frames) (g j : ℕ)
      → (g ≢ page_dir image i) ⊎ ((j < 768) ⊎ (1023 ≤ j))
      → round i used frames g j ≡ frames g j
  round-other i used frames g j h = elim (Bool-cases (get_or used i false)) [
    | inl e ↦ simp e (copy_kernel-other 255 768 (initial image) (page_dir image i) frames g j h)
    | inr e ↦ simp e refl
  ]

  pub sync_from-other :
      (left i : ℕ) (used : List Bool) (frames : Frames) (g j : ℕ)
      → ((k : ℕ) → i ≤ k → k < i + left → g ≢ page_dir image k) ⊎ ((j < 768) ⊎ (1023 ≤ j))
      → sync_from image left i used frames g j ≡ frames g j
  unfolding sync_from
  sync_from-other zero i used frames g j h = refl
  sync_from-other (suc left) i used frames g j (inl h) =
      sync_from-other left (i + 1) used (round i used frames) g j
        (inl (λ k le lt. h k (omega arith) (omega arith)))
      ∙ round-other i used frames g j (inl (h i (omega arith) (omega arith)))
  sync_from-other (suc left) i used frames g j (inr h) =
      sync_from-other left (i + 1) used (round i used frames) g j (inr h)
      ∙ round-other i used frames g j (inr h)

  -- A directory in use gets the initial directory's entries, without the mark of ownership.
  pub sync_from-inside :
      (left i : ℕ) (used : List Bool) (frames : Frames) (k j : ℕ)
      → i ≤ k
      → k < i + left
      → get_or used k false ≡ true
      → 768 ≤ j
      → j < 1023
      → sync_from image left i used frames (page_dir image k) j
        ≡ without_owner (frames (initial image) j)
  unfolding sync_from
  sync_from-inside zero i used frames k j lo hi u from to = absurd (omega arith)
  sync_from-inside (suc left) i used frames k j lo hi u from to = elim (ℕ_discrete i k) [
    | yes e ↦
        sync_from-other left (i + 1) used (round i used frames) (page_dir image k) j
          (inl (λ l le lt same. absurd (omega arith)))
        ∙ (let here : get_or used i false ≡ true = ap (λ (t : ℕ). get_or used t false) e ∙ u in
            subst
              (λ (t : ℕ).
                round i used frames (page_dir image t) j ≡ without_owner (frames (initial image) j))
              e
              (simp here (
                copy_kernel-inside 255 768 (initial image) (page_dir image i) frames j
                  (initial-ne i) from to)))
    | no far ↦
        sync_from-inside left (i + 1) used (round i used frames) k j (omega arith) (omega arith) u
          from to
        ∙ ap without_owner (round-other i used frames (initial image) j (inl (initial-ne i)))
  ]

  -- `p` in the initial page directory, and `q` back in `dir` after its copies are made.
  abbrev pub in_initial : Paging → Paging
  in_initial p = record p { cr3 = initial image }

  abbrev pub settled : ℕ → Paging → Paging
  settled dir q = record q { frames = sync_from image 256 0 q.page_dir_used q.frames; cr3 = dir }

  pub enter_kernel_dir-user :
      (virt : ℕ) (p : Paging) → virt < kernel_start → enter_kernel_dir image virt p ≡ ok (0, p)
  unfolding enter_kernel_dir
  enter_kernel_dir-user virt p h =
      let below : leb kernel_start virt ≡ false = ground arith in simp below refl

  pub leave_kernel_dir-user : (q : Paging) → leave_kernel_dir image 0 q ≡ ok q
  unfolding leave_kernel_dir
  leave_kernel_dir-user q = refl

  same : (c : ℕ) → c + kernel_start ≡ image.initial_page_dir → c ≡ initial image
  same c e = omega arith

  module _ (p : Paging) (v : IsPaging image p) where
    pub enter_kernel_dir-eq :
        (virt : ℕ)
        → kernel_start ≤ virt
        → enter_kernel_dir image virt p ≡ ok (p.cr3 + kernel_start, in_initial p)
    unfolding enter_kernel_dir
    enter_kernel_dir-eq virt h =
        let kernel : leb kernel_start virt ≡ true = ground arith in
        let current : (p.cr3 + kernel_start) % u32_mod ≡ p.cr3 + kernel_start =
          omega (arith, InUse-low image p.page_dir_used p.cr3 v.current) in
        let above : ltb kernel_start image.initial_page_dir ≡ true =
          ground (arith, image.initial_above) in
        elim (Bool-cases (p.cr3 + kernel_start == image.initial_page_dir)) [
          | inl e ↦
              simp (kernel, current, e)
                (ap (λ (c : ℕ). ok (p.cr3 + kernel_start, record p { cr3 = c }))
                  (same p.cr3 ((==_iff _ _).0 e)))
          | inr e ↦ simp (kernel, current, e, above) refl
        ]

    pub leave_kernel_dir-eq :
        (q : Paging)
        → q.cr3 ≡ initial image
        → q.interrupts_enabled ≡ false
        → leave_kernel_dir image (p.cr3 + kernel_start) q ≡ ok (settled p.cr3 q)
    unfolding leave_kernel_dir
    leave_kernel_dir-eq q at off =
        let some_dir : (p.cr3 + kernel_start == 0) ≡ false = ground arith in
        let above : ltb kernel_start (p.cr3 + kernel_start) ≡ true =
          ground (arith, InUse-positive image p.page_dir_used p.cr3 v.current) in
        let back : p.cr3 + kernel_start - kernel_start ≡ p.cr3 = omega arith in
        elim (Bool-cases (p.cr3 + kernel_start == image.initial_page_dir)) [
          | inl e ↦
              simp (some_dir, off, e)
                (ap (λ (c : ℕ). ok (record (settled c q) { interrupts_enabled = false }))
                  (at ∙ sym (same p.cr3 ((==_iff _ _).0 e))))
          | inr e ↦ simp (some_dir, off, e, above, back) refl
        ]
