-- ===== src/Kmalloc.antt =====
-- kernel/kmalloc.c: the kernel heap, which grows by whole pages at KERNEL_MALLOC.
pub mod Growth
pub mod Laws
mod Examples
use quad_os.Base.{
  ℕ, zero, suc, ◌+◌, ◌-◌, ◌*◌, ◌/◌, ◌^◌, ◌≡◌, ◌≢◌, Bool, true, false, not, ◌==◌, ltb, if◌then◌else◌,
  add32, page_size, ceil_div, Outcome, ok, ◌>>=◌, ◌>>◌, kernel_assert, Delivers,
}
use quad_os.Malloc
use quad_os.Malloc.{Heap, Headers}

-- What the heap needs of kernel/physalloc.c and kernel/memory.c: a page frame, and a mapping of a
-- virtual to a physical page with flags. `Allocated` says that a frame has been handed out, `Mapped`
-- that a virtual page leads to a frame, with flags. A frame that is handed out is a new one, and a
-- mapping changes no other page. Neither operation loops for ever; either may stop the machine, and
-- then `Exhausted` holds.
pub record Paging : Type 1 where
  pub State : Type 0
  pub Exhausted : Type 0
  pub IsReady : State → Type 0
  pub Allocated : ℕ → State → Type 0
  pub Mapped : ℕ → ℕ → ℕ → State → Type 0
  pub alloc_frame : State → Outcome (ℕ × State)
  pub map_page : ℕ → ℕ → ℕ → State → Outcome State
  pub alloc_frame_lem :
      (s : State)
      → IsReady s
      → Delivers Exhausted (alloc_frame s) (λ r.
        IsReady r.1
        × (¬ Allocated r.0 s)
        × Allocated r.0 r.1
        × ((f : ℕ) → Allocated f s → Allocated f r.1)
        × ((v f flags : ℕ) → Mapped v f flags s → Mapped v f flags r.1))
  pub map_page_lem :
      (v p flags : ℕ) (s : State)
      → IsReady s
      → Delivers Exhausted (map_page v p flags s) (λ s'.
        IsReady s'
        × Mapped v p flags s'
        × ((f : ℕ) → Allocated f s → Allocated f s')
        × ((w f g : ℕ) → w ≢ v → Mapped w f g s → Mapped w f g s'))

abbrev pub kernel_malloc : ℕ
kernel_malloc = 0xd000_0000

abbrev pub page_flag_write : ℕ
page_flag_write = 2

-- CEIL_DIV(new_size, 0x1000) where `new_size` is an `int`. A negative page count is never above the
-- old one, and so stands as 0 here.
abbrev pub new_top : ℕ → ℕ
new_top new_size =
    if ltb (new_size + (page_size - 1)) (2 ^ 31)
    then (new_size + (page_size - 1)) / page_size
    else 0

-- The file's static variables.
pub record Kernel (S : Type 0) : Type 0 where
  pub heap : Heap S
  pub kmalloc_initialized : Bool

module _ (P : Paging) where
  open P use {State, alloc_frame, map_page}

  -- The loop of `change_heap_size`: `rounds` pages are left, from page `i` of the new ones on.
  unfoldable pub map_pages : ℕ → ℕ → ℕ → State → Outcome State
  map_pages old_top i zero s = ok s
  map_pages old_top i (suc rounds) s = do
    (phys, s₁) ← alloc_frame s
    s₂ ←
        map_page (add32 (add32 kernel_malloc (old_top * page_size)) (i * page_size)) phys
          page_flag_write s₁
    map_pages old_top (i + 1) rounds s₂

  -- `change_heap_size` without the write of `heap_size`, which `Malloc.change_heap_size` makes.
  unfoldable pub change_pages : ℕ → ℕ → State → Outcome State
  unfolding map_pages
  change_pages heap_size new_size s =
      let old_top = ceil_div heap_size page_size in
      if ltb old_top (new_top new_size)
      then map_pages old_top 0 (new_top new_size - old_top) s
      else ok s

  unfoldable pub kmalloc_init : ℕ → Headers → State → Outcome (Kernel State)
  kmalloc_init initial_heap_size m s = do
    h ← Malloc.init change_pages kernel_malloc initial_heap_size m s
    ok (record { heap = h; kmalloc_initialized = true })

  unfoldable pub kmalloc : ℕ → ℕ → Kernel State → Outcome (ℕ × Kernel State)
  unfolding kernel_assert
  kmalloc fuel bytes k = do
    kernel_assert k.kmalloc_initialized
    kernel_assert (not (bytes == 0))
    (addr, h) ← Malloc.malloc change_pages fuel bytes k.heap
    ok (addr, record k { heap = h })

module _ {S : Type 0} where
  unfoldable pub kfree : ℕ → ℕ → Kernel S → Outcome (Kernel S)
  unfolding kernel_assert
  kfree fuel addr k = do
    kernel_assert k.kmalloc_initialized
    h ← Malloc.free fuel addr k.heap
    ok (record k { heap = h })

  unfoldable pub kmalloc_get_total_bytes : Kernel S → ℕ
  kmalloc_get_total_bytes k = Malloc.total_bytes k.heap
