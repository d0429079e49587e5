-- ===== src/Paging/DestroyExamples.antt =====
-- kernel/memory.c: a second page directory, with a table and a page of its own, and its end.
use quad_os.Base.{
  Returns, get_or, ◌+◌, ◌<◌, ◌≡◌, ◌==◌, if◌then◌else◌, All, zero, suc, ◌≢◌, sym, subst, List, [],
  ◌∷◌, ◌++◌, ℕ, ◌≤◌, ◌<◌, ◌≡◌, ◌⊎◌, inl, inr, ℕ_discrete, replicate, set, refl, ap, ◌∙◌, true,
  false, get_or, arith,
}
use quad_os.Paging.{Paging, present, write, init_memory}
use quad_os.Paging.Directories.{mem_free_page_dir}
use quad_os.Paging.Valid.{IsPaging, write-same, write-other}
use quad_os.Paging.Edit.{user-Edited}
use quad_os.Paging.Create.{created, created-IsPaging}
use quad_os.Paging.Build.{built-user}
use quad_os.Paging.Owned.{owned_tables, owned_pages, CanFree}
use quad_os.PhysAlloc.{Pmm}
use quad_os.PhysAlloc.Valid.{IsValid, used_frames}
use quad_os.PhysAlloc.Bits.{ones_below}
use quad_os.Paging.Destroy.{DirDestroyed, free_page_dir-destroyed}
use quad_os.Paging.Boot.{image, started, started-IsPaging}
use quad_os.Paging.{Frames}
use quad_os.Paging.Valid.{low_end}
use quad_os.PhysAlloc.{is_pf_used, byte_at}
use quad_os.PhysAlloc.Valid.{IsByte}

abbrev dir₀ : ℕ
dir₀ = 0x20_0000

slot-free : get_or started.page_dir_used 0 false ≡ false
unfolding init_memory replicate
slot-free = refl

abbrev two_dirs : Paging
two_dirs = created image started started-IsPaging 0 (omega arith) slot-free

slot-used : get_or two_dirs.page_dir_used 0 false ≡ true
unfolding init_memory replicate set
slot-used = refl

two_dirs-IsPaging : IsPaging image two_dirs
two_dirs-IsPaging = created-IsPaging image started started-IsPaging 0 (omega arith) slot-free

-- In the other directory, which gets a table at 0x400000 with one page, both its own.
abbrev inside : Paging
inside = record two_dirs { cr3 = dir₀ }

-- The frames at 0x400000 and 0x401000 are in use.
abbrev two_frames : Pmm
two_frames = record {
  bitmap = replicate 128 0 ++ (3 ∷ []);
  page_frame_min = 1024;
  page_frame_max = 1032;
  total_allocated = 2;
}

bytes-IsByte : (n : ℕ) → All IsByte (replicate n 0 ++ (3 ∷ []))
unfolding replicate
bytes-IsByte zero = (omega arith, tt)
bytes-IsByte (suc n) = (omega arith, bytes-IsByte n)

two_frames-IsValid : IsValid two_frames
unfolding replicate used_frames ones_below
two_frames-IsValid = record {
  bytes = bytes-IsByte 128;
  small = omega arith;
  scan_in = omega arith;
  counted = refl;
}

-- The table at 0x400000, with one page at 0x401000, both owned.
abbrev table : ℕ → ℕ
table j = if j == 0 then 0x40_1207 else 0

abbrev with_table : Frames
with_table = λ g. if g == 0x40_0000 then table else two_dirs.frames g

abbrev inside_page : Paging
inside_page = record inside { frames = write dir₀ 128 0x40_0207 (with_table); pmm = two_frames }

abbrev second : Paging
second = record inside_page { cr3 = 0x10_0000 }

inside-IsPaging : IsPaging image inside
inside-IsPaging =
    let v = two_dirs-IsPaging in
    record {
      off = v.off;
      slots = v.slots;
      current = inr (0, omega arith, slot-used, refl);
      recursive = v.recursive;
      tables = v.tables;
      synced = v.synced;
      allocator = v.allocator;
      first_frame = v.first_frame;
    }

with_table-low : (g j : ℕ) → g < low_end → with_table g j ≡ two_dirs.frames g j
with_table-low g j lo = ground arith

inside_page-IsPaging : IsPaging image inside_page
inside_page-IsPaging =
    let v = inside-IsPaging in
    user-Edited image inside v 128 inside_page (omega arith)
      (record {
        sound = λ e. omega (arith, write-same dir₀ 128 0x40_0207 (with_table));
        low = λ g i lo other. write-other dir₀ 128 0x40_0207 _ g i other ∙ with_table-low g i lo;
        same_cr3 = refl;
        same_used = refl;
        same_flag = refl;
        allocator = two_frames-IsValid;
        first_frame = refl;
      })
      (omega arith)

second-IsPaging : IsPaging image second
second-IsPaging =
    let v = inside_page-IsPaging in
    record {
      off = v.off;
      slots = v.slots;
      current = inl refl;
      recursive = v.recursive;
      tables = v.tables;
      synced = v.synced;
      allocator = v.allocator;
      first_frame = v.first_frame;
    }

second-user :
    (j : ℕ) → j < 768 → (second.frames dir₀ j ≡ 0) ⊎ (present (second.frames dir₀ j) ≡ true)
second-user j lt = elim (ℕ_discrete j 128) [
  | yes e ↦ inr (
      ap (λ (t : ℕ). present (second.frames dir₀ t)) e
      ∙ ap present (write-same dir₀ 128 0x40_0207 (with_table)))
  | no ne ↦ inl (
      write-other dir₀ 128 0x40_0207 _ dir₀ j (inr ne)
      ∙ with_table-low dir₀ j (omega arith)
      ∙ built-user 0x10_0000 dir₀ started.frames j lt)
]

second-empty : (j : ℕ) → j < 768 → j ≢ 128 → second.frames dir₀ j ≡ 0
second-empty j lt ne =
    write-other dir₀ 128 0x40_0207 with_table dir₀ j (inr ne)
    ∙ with_table-low dir₀ j (omega arith)
    ∙ built-user 0x10_0000 dir₀ started.frames j lt

here : second.frames dir₀ 128 ≡ 0x40_0207
here = write-same dir₀ 128 0x40_0207 with_table

owned-none : (left i : ℕ) → 128 < i → i + left ≤ 768 → owned_tables left i dir₀ second.frames ≡ []
unfolding owned_tables
owned-none zero i from to = refl
owned-none (suc left) i from to =
    simp (second-empty i (omega arith) (omega arith))
      (owned-none left (i + 1) (omega arith) (omega arith))

owned-table : owned_pages 1024 0 (write dir₀ 128 0x40_0207 with_table 0x40_0000) ≡ 1025 ∷ []
unfolding owned_pages write
owned-table = refl

owned-sole :
    (left i : ℕ)
    → i ≤ 128
    → i + left ≡ 768
    → owned_tables left i dir₀ second.frames ≡ 1025 ∷ (1024 ∷ [])
unfolding owned_tables
owned-sole zero i from to = absurd (omega arith)
owned-sole (suc left) i from to = elim (ℕ_discrete i 128) [
  | yes e ↦
      simp (e, here)
        (simp (owned-none left 129 (omega arith) (omega arith))
          (ap (λ (xs : List ℕ). (xs ++ (1024 ∷ [])) ++ []) owned-table))
  | no ne ↦
      simp (second-empty i (omega arith) ne) (owned-sole left (i + 1) (omega arith) (omega arith))
]

second-CanFree : CanFree second.pmm (owned_tables 768 0 dir₀ second.frames)
unfolding is_pf_used byte_at replicate
second-CanFree =
    subst (CanFree second.pmm) (sym (owned-sole 768 0 (omega arith) refl))
      (refl, refl, (refl, refl, tt))

free_page_dir-destroyed_example :
    Returns (mem_free_page_dir image 0xc020_0000 second) (DirDestroyed image second 0)
free_page_dir-destroyed_example =
    free_page_dir-destroyed image second second-IsPaging 0 (omega arith) slot-used
      (λ e. omega (arith, e)) second-user
      (λ i k lt below used_i used_k e.
        used_k (second-empty k (omega arith) (λ at. used_i (second-empty i lt (omega arith)))))
      second-CanFree
