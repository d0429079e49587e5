-- ===== src/Paging/Valid.antt =====
-- kernel/memory.c: the invariant of the page directories, and writes to one frame.
use quad_os.Base.{
  ℕ, zero, suc, ◌≤◌, ◌<◌, ◌≡◌, ◌≢◌, ◌⊎◌, inl, inr, refl, Bool, true, false, List, get_or, length,
  kernel_assert, not, ok, ℕ_discrete, arith,
}
use quad_os.PhysAlloc
use quad_os.Paging.{
  Image, Paging, Frames, present, without_owner, p_phys_addr, write, rec_pagetable, rec_pagedir,
  zero_entries, initial, page_dir,
}

-- Below this physical address lie the kernel's image and its page directories.
abbrev pub low_end : ℕ
low_end = 0x40_0000

-- The entry `j` of a directory leads to a table of 4 KiB pages: the entries from 768 on that the
-- boot code fills are pages of 4 MiB, and the last one is the recursive mapping.
abbrev pub IsTableIndex : ℕ → Type 0
IsTableIndex j = (j < 1023) × ((j < 768) ⊎ (772 ≤ j))

pub write-same : (f i e : ℕ) (frames : Frames) → write f i e frames f i ≡ e
unfolding write
write-same f i e frames = ground arith

pub write-other :
    (f i e : ℕ) (frames : Frames) (g j : ℕ)
    → (g ≢ f) ⊎ (j ≢ i)
    → write f i e frames g j ≡ frames g j
unfolding write
write-other f i e frames g j h = ground arith

pub zero_entries-other :
    (f n : ℕ) (frames : Frames) (g j : ℕ)
    → (g ≢ f) ⊎ (n ≤ j)
    → zero_entries f n frames g j ≡ frames g j
unfolding zero_entries
zero_entries-other f zero frames g j h = refl
zero_entries-other f (suc n) frames g j h =
    ground
      (arith, write-other f n 0 (zero_entries f n frames) g j, zero_entries-other f n frames g j)

pub zero_entries-inside :
    (f n : ℕ) (frames : Frames) (j : ℕ) → j < n → zero_entries f n frames f j ≡ 0
unfolding zero_entries
zero_entries-inside f zero frames j h = absurd (omega arith)
zero_entries-inside f (suc n) frames j h = elim (ℕ_discrete j n) [
  | yes e ↦ ground (arith, write-same f n 0 (zero_entries f n frames))
  | no ne ↦
      ground
        (arith, write-other f n 0 (zero_entries f n frames) f j, zero_entries-inside f n frames j)
]

pub interrupts_off :
    (p : Paging) → p.interrupts_enabled ≡ false → kernel_assert (not p.interrupts_enabled) ≡ ok tt
unfolding kernel_assert
interrupts_off p e = simp e refl

-- Through the recursive mapping the directory is the current one, and a table the one that its entry
-- names.
module _ (frames : Frames) (cr3 : ℕ) (mapped : p_phys_addr (frames cr3 1023) ≡ cr3) where
  pub rec_pagetable-eq : (j : ℕ) → rec_pagetable frames cr3 j ≡ p_phys_addr (frames cr3 j)
  unfolding rec_pagetable
  rec_pagetable-eq j = rw mapped refl

  pub rec_pagedir-eq : rec_pagedir frames cr3 ≡ cr3
  unfolding rec_pagedir
  rec_pagedir-eq = rw (rec_pagetable-eq 1023, mapped) refl

module _ (image : Image) where
  -- `d` is the initial page directory or one that is in use.
  abbrev pub InUse : List Bool → ℕ → Type 0
  InUse used d =
      (d ≡ initial image)
      ⊎ ((i : ℕ) × (i < 256) × (get_or used i false ≡ true) × (d ≡ page_dir image i))

  pub InUse-low : (used : List Bool) (d : ℕ) → InUse used d → d < low_end
  InUse-low used d (inl e) = omega (arith, image.initial_above, image.initial_low, image.dirs_low)
  InUse-low used d (inr (i, lt, u, e)) =
      omega (arith, image.initial_above, image.initial_low, image.dirs_low)

  pub InUse-positive : (used : List Bool) (d : ℕ) → InUse used d → 0 < d
  InUse-positive used d (inl e) = omega (arith, image.initial_above)
  InUse-positive used d (inr (i, lt, u, e)) = omega (arith, image.initial_above, image.initial_low)

  pub record IsPaging (p : Paging) : Type 0 where
    pub off : p.interrupts_enabled ≡ false
    pub slots : length p.page_dir_used ≡ 256
    pub current : InUse p.page_dir_used p.cr3
    pub recursive : (d : ℕ) → InUse p.page_dir_used d → p_phys_addr (p.frames d 1023) ≡ d
    pub tables :
        (d : ℕ)
        → InUse p.page_dir_used d
        → (j : ℕ) → IsTableIndex j
        → present (p.frames d j) ≡ true
        → low_end ≤ p_phys_addr (p.frames d j)
    pub synced :
        (i : ℕ)
        → i < 256
        → get_or p.page_dir_used i false ≡ true
        → (j : ℕ) → 768 ≤ j
        → j < 1023
        → p.frames (page_dir image i) j ≡ without_owner (p.frames (initial image) j)
    pub allocator : PhysAlloc.Valid.IsValid p.pmm
    pub first_frame : p.pmm.page_frame_min ≡ 1024
