-- ===== src/Paging/Build.antt =====
-- kernel/memory.c, `mem_alloc_page_dir`: the slot that it takes and the directory that it builds.
use quad_os.Base.{
  ℕ, zero, suc, ◌+◌, ◌%◌, ◌≤◌, ◌<◌, ◌≡◌, ◌≢◌, inl, inr, refl, sym, ap, ◌∙◌, bit_or, bit_or-flags,
  Bool, true, false, Bool-cases, List, get_or, Delivers, Delivers-map, Delivers-stop, ℕ_discrete,
  arith,
}
use quad_os.Paging.{Frames, without_owner, p_phys_addr, write, zero_entries, copy_kernel}
use quad_os.Paging.Directories.{find_free_dir}
use quad_os.Paging.Valid.{write-same, write-other, zero_entries-other, zero_entries-inside}
use quad_os.Paging.Sync.{copy_kernel-other, copy_kernel-inside}

-- With the slot `i` in use, the slots from `i` on are if those after it are.
used_from :
    (used : List Bool) (i k : ℕ)
    → get_or used i false ≡ true
    → (i + 1 ≤ k → get_or used k false ≡ true)
    → i ≤ k
    → get_or used k false ≡ true
used_from used i k e rest lo = elim (ℕ_discrete i k) [
  | yes same ↦ ap (λ (t : ℕ). get_or used t false) (sym same) ∙ e
  | no ne ↦ rest (omega arith)
]

-- The lowest slot that is free, and the end without one.
pub find_free_dir-lowest :
    (left i : ℕ) (used : List Bool)
    → Delivers
        ((k : ℕ) → i ≤ k → k < i + left → get_or used k false ≡ true)
        (find_free_dir left used i)
        (λ s.
          (i ≤ s)
          × (s < i + left)
          × (get_or used s false ≡ false)
          × ((k : ℕ) → i ≤ k → k < s → get_or used k false ≡ true))
unfolding find_free_dir
find_free_dir-lowest zero i used = λ k lo hi. absurd (omega arith)
find_free_dir-lowest (suc left) i used = elim (Bool-cases (get_or used i false)) [
  | inl e ↦ simp e (
      Delivers-map ((k : ℕ) → i ≤ k → k < i + suc left → get_or used k false ≡ true)
        (find_free_dir left used (i + 1)) _ _
        (Delivers-stop ((k : ℕ) → i + 1 ≤ k → k < i + 1 + left → get_or used k false ≡ true) _
          (find_free_dir left used (i + 1)) _
          (λ all k lo hi. used_from used i k e (λ from. all k from (omega arith)) lo)
          (find_free_dir-lowest left (i + 1) used))
        (λ s h. (
          omega (arith, h),
          omega (arith, h),
          h.2,
          λ k lo hi. used_from used i k e (λ from. h.3 k from hi) lo,
        )))
  | inr e ↦ simp e (omega arith, omega arith, refl, λ k lo hi. absurd (omega arith))
]

-- The directory at the physical address `dir`, as it is built.
abbrev pub built : ℕ → ℕ → Frames → Frames
built from dir frames =
    write dir 1023 (bit_or (bit_or dir 1) 2)
      (copy_kernel 255 768 from dir (zero_entries dir 768 (zero_entries dir 1024 frames)))

pub built-other :
    (from dir : ℕ) (frames : Frames) (g j : ℕ) → g ≢ dir → built from dir frames g j ≡ frames g j
built-other from dir frames g j ne =
    write-other dir 1023 (bit_or (bit_or dir 1) 2) _ g j (inl ne)
    ∙ copy_kernel-other 255 768 from dir _ g j (inl ne)
    ∙ zero_entries-other dir 768 _ g j (inl ne)
    ∙ zero_entries-other dir 1024 frames g j (inl ne)

pub built-user :
    (from dir : ℕ) (frames : Frames) (j : ℕ) → j < 768 → built from dir frames dir j ≡ 0
built-user from dir frames j h =
    write-other dir 1023 (bit_or (bit_or dir 1) 2) _ dir j (inr (omega arith))
    ∙ copy_kernel-other 255 768 from dir _ dir j (inr (inl (omega arith)))
    ∙ zero_entries-inside dir 768 _ j h

pub built-kernel :
    (from dir : ℕ) (frames : Frames) (j : ℕ)
    → from ≢ dir
    → 768 ≤ j
    → j < 1023
    → built from dir frames dir j ≡ without_owner (frames from j)
built-kernel from dir frames j ne lo hi =
    write-other dir 1023 (bit_or (bit_or dir 1) 2) _ dir j (inr (omega arith))
    ∙ copy_kernel-inside 255 768 from dir _ j ne lo hi
    ∙ ap without_owner (
        zero_entries-other dir 768 _ from j (inl ne)
        ∙ zero_entries-other dir 1024 frames from j (inl ne))

pub built-recursive :
    (from dir : ℕ) (frames : Frames)
    → dir % 4096 ≡ 0
    → p_phys_addr (built from dir frames dir 1023) ≡ dir
built-recursive from dir frames aligned =
    ap p_phys_addr (write-same dir 1023 (bit_or (bit_or dir 1) 2) _)
    ∙ omega (
      arith,
      bit_or-flags (bit_or dir 1) 2 (omega arith),
      bit_or-flags dir 1 (omega arith),
      aligned,
    )
