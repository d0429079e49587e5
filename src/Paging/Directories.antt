-- ===== src/Paging/Directories.antt =====
-- kernel/memory.c: creating and destroying a page directory.
use quad_os.Base.{
  ℕ, zero, suc, ◌+◌, ◌*◌, ◌/◌, bit_or, Bool, true, false, not, List, ◌==◌, if◌then◌else◌, get_or,
  set, sub32, Outcome, ok, panic, ◌>>=◌, ◌>>◌, kernel_assert,
}
use quad_os.PhysAlloc.{Pmm, pmm_free_pageframe}
use quad_os.Paging.{
  Image, Paging, num_page_dirs, owner, p_phys_addr, flag_present, flag_write, write, rec_pagetable,
  rec_pagedir, zero_entries, copy_kernel, initial, page_dir, mem_change_page_directory,
  mem_get_current_page_directory,
}

unfoldable pub find_free_dir : ℕ → List Bool → ℕ → Outcome ℕ
find_free_dir zero used i = panic
find_free_dir (suc left) used i =
    let rest = find_free_dir left used (i + 1) in if get_or used i false then rest else ok i

-- The loop of `mem_free_page_dir` over the entries of a table, at the entry `j`
unfoldable pub free_pages : ℕ → ℕ → ℕ → Paging → Outcome Pmm
free_pages zero j pt p = ok p.pmm
free_pages (suc left) j pt p = do
  let pte = p.frames pt j
  pmm ← if owner pte then pmm_free_pageframe (p_phys_addr pte) p.pmm else ok p.pmm
  free_pages left (j + 1) pt (record p { pmm = pmm })

unfoldable pub free_table : ℕ → Paging → Outcome Paging
free_table i p = do
  let pde = p.frames (rec_pagedir p.frames p.cr3) i
  let pt = rec_pagetable p.frames p.cr3 i
  pmm₁ ← free_pages 1024 0 pt p
  let frames = zero_entries pt 1024 p.frames
  pmm₂ ← if owner pde then pmm_free_pageframe (p_phys_addr pde) pmm₁ else ok pmm₁
  ok (record p { pmm = pmm₂; frames = write (rec_pagedir frames p.cr3) i 0 frames })

-- Its loop over the tables, at the entry `i`
unfoldable pub free_tables : ℕ → ℕ → Paging → Outcome Paging
free_tables zero i p = ok p
free_tables (suc left) i p = do
  p' ← if p.frames (rec_pagedir p.frames p.cr3) i == 0 then ok p else free_table i p
  free_tables left (i + 1) p'

module _ (image : Image) where
  open image use {initial_page_dir, page_dirs}

  -- The result is the address of the directory.
  unfoldable pub mem_alloc_page_dir : Paging → Outcome (ℕ × Paging)
  mem_alloc_page_dir p = do
    kernel_assert (not p.interrupts_enabled)
    i ← find_free_dir num_page_dirs p.page_dir_used 0
    let dir = page_dir image i
    let cleared = zero_entries dir 768 (zero_entries dir 1024 p.frames)
    let shared = copy_kernel 255 768 (initial image) dir cleared
    ok (
      page_dirs + i * 4096,
      record p {
        page_dir_used = set p.page_dir_used i true;
        frames = write dir 1023 (bit_or (bit_or dir flag_present) flag_write) shared;
      },
    )

  unfoldable pub mem_free_page_dir : ℕ → Paging → Outcome Paging
  mem_free_page_dir pd p = do
    kernel_assert (not p.interrupts_enabled)
    let prev = mem_get_current_page_directory p
    p₁ ← mem_change_page_directory pd p
    p₂ ← free_tables 768 0 p₁
    mem_change_page_directory prev
        (record p₂ { page_dir_used = set p₂.page_dir_used (sub32 pd page_dirs / 4096) false })
