-- ===== src/Paging/Pages.antt =====
-- kernel/memory.c: mapping, unmapping and translating one page.
use quad_os.Base.{
  ℕ, zero, suc, ◌+◌, ◌-◌, bit_or, Bool, true, false, not, if◌then◌else◌, add32, sub32, u32_mod,
  Outcome, ok, ◌>>=◌, ◌>>◌, kernel_assert,
}
use quad_os.PhysAlloc.{pmm_alloc_pageframe, pmm_free_pageframe}
use quad_os.Paging.{
  Image, Paging, Frames, present, owner, p_phys_addr, flag_present, flag_write, flag_owner, write,
  pd_index, pt_index, rec_pagetable, rec_pagedir, zero_entries, enter_kernel_dir, leave_kernel_dir,
}

-- `if (!(page_dir[pd_index] & PAGE_FLAG_PRESENT)) { ... }` of `mem_map_page`
unfoldable pub ensure_table : ℕ → ℕ → Paging → Outcome Paging
ensure_table virt_addr flags p =
    let dir = rec_pagedir p.frames p.cr3 in
    let index = pd_index virt_addr in
    let create = do
      (pt_paddr, pmm) ← pmm_alloc_pageframe p.pmm
      let pde = bit_or (bit_or (bit_or (bit_or pt_paddr flag_present) flag_write) flag_owner) flags
      let frames = write dir index pde p.frames
      ok (record p {
        frames = zero_entries (rec_pagetable frames p.cr3 index) 1024 frames;
        pmm = pmm;
      })
    in if present (p.frames dir index) then ok p else create

unfoldable pub map_entry : ℕ → ℕ → ℕ → Paging → Outcome Paging
unfolding ensure_table
map_entry virt_addr phys_addr flags p = do
  p₁ ← ensure_table virt_addr flags p
  let pt = rec_pagetable p₁.frames p₁.cr3 (pd_index virt_addr)
  ok (record p₁ {
    frames = write pt (pt_index virt_addr) (bit_or (bit_or phys_addr flag_present) flags) p₁.frames;
    mem_num_vpages = add32 p₁.mem_num_vpages 1;
  })

-- `for (i = 0; i < 1024; i++) if (pt[i] & PAGE_FLAG_PRESENT) ...`, with `left` entries left
unfoldable pub any_present : Frames → ℕ → ℕ → ℕ → Bool
any_present frames pt i zero = false
any_present frames pt i (suc left) =
    let rest = any_present frames pt (i + 1) left in if present (frames pt i) then true else rest

-- An empty table goes back to the frame allocator, if the kernel owns it.
unfoldable pub remove_table : ℕ → Paging → Outcome Paging
remove_table index p =
    let dir = rec_pagedir p.frames p.cr3 in
    let pde = p.frames dir index in
    let remove = do
      pmm ← pmm_free_pageframe (p_phys_addr pde) p.pmm
      ok (record p { pmm = pmm; frames = write dir index 0 p.frames })
    in if any_present p.frames (rec_pagetable p.frames p.cr3 index) 0 1024
      then ok p
      else if owner pde
      then remove
      else ok p

unfoldable pub unmap_entry : ℕ → Paging → Outcome (ℕ × Paging)
unfolding kernel_assert
unmap_entry virt_addr p = do
  let index = pd_index virt_addr
  kernel_assert (present (p.frames (rec_pagedir p.frames p.cr3) index))
  let pt = rec_pagetable p.frames p.cr3 index
  let pte = p.frames pt (pt_index virt_addr)
  kernel_assert (present pte)
  p₁ ← remove_table index (record p {
    frames = write pt (pt_index virt_addr) 0 p.frames;
    mem_num_vpages = sub32 p.mem_num_vpages 1;
  })
  pmm ← if owner pte then pmm_free_pageframe (p_phys_addr pte) p₁.pmm else ok p₁.pmm
  ok (pte, record p₁ { pmm = pmm })

unfoldable pub mem_get_phys_from_virt : ℕ → Paging → Outcome ℕ
unfolding kernel_assert
mem_get_phys_from_virt virt_addr p = do
  kernel_assert (not p.interrupts_enabled)
  let index = pd_index virt_addr
  let pt = rec_pagetable p.frames p.cr3 index
  let entry = p.frames pt (pt_index virt_addr)
  if present (p.frames (rec_pagedir p.frames p.cr3) index)
      then ok (p_phys_addr entry)
      else ok (u32_mod - 1)

unfoldable pub mem_is_valid_vaddr : ℕ → Paging → Outcome Bool
unfolding kernel_assert
mem_is_valid_vaddr vaddr p = do
  kernel_assert (not p.interrupts_enabled)
  let index = pd_index vaddr
  let pt = rec_pagetable p.frames p.cr3 index
  let entry = p.frames pt (pt_index vaddr)
  if present (p.frames (rec_pagedir p.frames p.cr3) index) then ok (present entry) else ok false

module _ (image : Image) where
  open image use {initial_page_dir, page_dirs}

  unfoldable pub mem_map_page : ℕ → ℕ → ℕ → Paging → Outcome Paging
  mem_map_page virt_addr phys_addr flags p = do
    kernel_assert (not p.interrupts_enabled)
    (prev, p₁) ← enter_kernel_dir image virt_addr p
    p₂ ← map_entry virt_addr phys_addr flags p₁
    leave_kernel_dir image prev p₂

  unfoldable pub mem_unmap_page : ℕ → Paging → Outcome (ℕ × Paging)
  mem_unmap_page virt_addr p = do
    kernel_assert (not p.interrupts_enabled)
    (prev, p₁) ← enter_kernel_dir image virt_addr p
    (pte, p₂) ← unmap_entry virt_addr p₁
    p₃ ← leave_kernel_dir image prev p₂
    ok (pte, p₃)
