-- ===== src/Userheap.antt =====
-- kernel/userheap.c: the end of a task's heap, and the pages below it. What the new pages hold, which
-- is zeros, is left out.
pub mod Growth
mod Examples
use quad_os.Base.{
  ℕ, zero, suc, ◌+◌, ◌-◌, ◌*◌, ◌/◌, Bool, ltb, if◌then◌else◌, ceil_div, page_size, add32, Outcome,
  ok, panic, ◌>>=◌, ◌>>◌, kernel_assert,
}
use quad_os.PhysAlloc.{pmm_alloc_pageframe}
use quad_os.Tasks.{Task}
use quad_os.Paging.{Image, Paging}
use quad_os.Paging.Pages.{mem_map_page}

abbrev pub user_heap_start : ℕ
user_heap_start = 0x2000_0000

-- PAGE_FLAG_WRITE | PAGE_FLAG_USER | PAGE_FLAG_OWNER
abbrev pub heap_page_flags : ℕ
heap_page_flags = 2 + 4 + 512

unfoldable pub init_user_heap : Task → Task
init_user_heap task = record task { heap_start = user_heap_start; heap_end = user_heap_start }

module _ (image : Image) where
  -- The loop over the new pages, with `left` pages left from the page `i` on
  unfoldable pub grow_heap : ℕ → ℕ → ℕ → Paging → Outcome Paging
  grow_heap zero i old_page_top p = ok p
  grow_heap (suc left) i old_page_top p = do
    (phys, pmm) ← pmm_alloc_pageframe p.pmm
    let virt = add32 (old_page_top * 0x1000) (i * 0x1000)
    p' ← mem_map_page image virt phys heap_page_flags (record p { pmm = pmm })
    grow_heap left (i + 1) old_page_top p'

  unfoldable pub set_user_heap_end : ℕ → Task → Paging → Outcome (Task × Paging)
  unfolding kernel_assert
  set_user_heap_end new_heap_end task p = do
    kernel_assert (ltb task.heap_start new_heap_end)
    let old_page_top = ceil_div task.heap_end page_size
    let new_page_top = ceil_div new_heap_end page_size
    let grown = grow_heap (new_page_top - old_page_top) 0 old_page_top p
    p' ←
        if ltb old_page_top new_page_top
        then grown
        else if ltb new_page_top old_page_top
        then panic
        else ok p
    ok (record task { heap_end = new_heap_end }, p')
