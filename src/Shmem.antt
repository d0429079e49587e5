-- ===== src/Shmem.antt =====
-- kernel/sharedmem.c: creation, mapping and destruction of shared memory objects.
pub mod Create
pub mod Remap
mod Examples
use quad_os.Base.{
  ℕ, zero, suc, ◌+◌, ◌-◌, ◌*◌, ◌%◌, ◌^◌, Bool, true, false, not, ◌&&◌, List, [], ◌∷◌, Option, none,
  some, ◌==◌, ltb, leb, if◌then◌else◌, get_or, set, replicate, add32, mul32, ceil_div, page_size,
  Outcome, ok, panic, spins, ◌>>=◌, ◌>>◌, kernel_assert, Delivers,
}
use quad_os.Pools.{
  SharedMemory, Mapping, Pool, no_object, no_mapping, max_objs, sharedmem_exists,
  find_available_shmem_slot, insert_into_pool, remove_from_pool, find_mapping,
}
use quad_os.Tasks.{get_task_index}

-- The kernel heap, the page frames and the page tables (kernel/kmalloc.c, kernel/physalloc.c and
-- kernel/memory.c). Each fallible operation ends; it may stop the machine, and then `Exhausted`
-- holds.
pub record Pages : Type 1 where
  pub State : Type 0
  pub Exhausted : Type 0
  pub kmalloc : ℕ → State → Outcome (ℕ × State)
  pub kfree : ℕ → State → Outcome State
  pub alloc_frame : State → Outcome (ℕ × State)
  pub free_frame : ℕ → State → Outcome State
  pub map_page : ℕ → ℕ → ℕ → State → Outcome State
  pub unmap_page : ℕ → State → Outcome State
  pub current_dir : State → ℕ
  pub change_dir : ℕ → State → State
  pub kmalloc_steady : (bytes : ℕ) (s : State) → Delivers Exhausted (kmalloc bytes s) (λ _. Unit)
  pub alloc_steady : (s : State) → Delivers Exhausted (alloc_frame s) (λ _. Unit)
  pub map_steady :
      (v p flags : ℕ) (s : State) → Delivers Exhausted (map_page v p flags s) (λ _. Unit)
  pub unmap_steady : (v : ℕ) (s : State) → Delivers Exhausted (unmap_page v s) (λ _. Unit)

-- What shared memory reads and writes of a task.
pub record TaskPool : Type 0 where
  pub id : ℕ
  pub state : ℕ
  pub pagedir : ℕ
  pub shmem : Pool

abbrev pub no_pool : TaskPool
no_pool = record {
  id = 0;
  state = 0;
  pagedir = 0;
  shmem = record { mappings = []; num = 0; vaddr_start = 0 };
}

pub record Shared (S : Type 0) : Type 0 where
  pub shmem : List SharedMemory
  pub kernel_shmem_mappings : Pool
  pub tasks : List TaskPool
  pub interrupts_enabled : Bool
  pub memory : S

abbrev pub object_at : List SharedMemory → ℕ → SharedMemory
object_at shmem id = get_or shmem id no_object

abbrev pub page_flags : ℕ → ℕ
page_flags task_id = if task_id == 0 then 2 else 6

module _ {S : Type 0} where
  unfoldable pub sharedmem_init : ℕ → Shared S → Shared S
  unfolding replicate
  sharedmem_init kernel_shared_memory t = record t {
    shmem = replicate max_objs no_object;
    kernel_shmem_mappings = record {
      mappings = replicate 128 no_mapping;
      num = 0;
      vaddr_start = kernel_shared_memory;
    };
  }

  -- The pool of the kernel (task 0) or of a task.
  unfoldable pub pool_of : ℕ → Shared S → Outcome Pool
  unfolding get_task_index
  pool_of task_id t =
      let of_task = do index ← get_task_index task_id; ok (get_or t.tasks index no_pool).shmem
      in if task_id == 0 then ok t.kernel_shmem_mappings else of_task

  unfoldable pub with_pool : ℕ → Pool → Shared S → Shared S
  with_pool task_id pool t =
      let index = task_id - 1000 in
      if task_id == 0 then record t { kernel_shmem_mappings = pool } else record t {
        tasks = set t.tasks index (record (get_or t.tasks index no_pool) { shmem = pool });
      }

module _ (P : Pages) where
  open P use {
    State, kmalloc, kfree, alloc_frame, free_frame, map_page, unmap_page, current_dir, change_dir,
  }

  unfoldable pub alloc_frames : ℕ → State → Outcome (List ℕ × State)
  alloc_frames zero m = ok ([], m)
  alloc_frames (suc left) m = do
    (frame, m₁) ← alloc_frame m
    (frames, m₂) ← alloc_frames left m₁
    ok (frame ∷ frames, m₂)

  unfoldable pub sharedmem_create : ℕ → ℕ → Shared State → Outcome (ℕ × Shared State)
  unfolding kernel_assert alloc_frames find_available_shmem_slot
  sharedmem_create size owner_task_id t = do
    kernel_assert (not t.interrupts_enabled)
    kernel_assert (not (size == 0))
    id ← find_available_shmem_slot t.shmem
    let num_pages = ceil_div size page_size
    (array, m₁) ← kmalloc (mul32 num_pages 4) t.memory
    (frames, m₂) ← alloc_frames num_pages m₁
    let obj : SharedMemory = record {
      size_in_pages = num_pages;
      physical_pages = array;
      frames = frames;
      owner_task_id = owner_task_id;
    }
    ok (id, record t { shmem = set t.shmem id obj; memory = m₂ })

  -- The page directory that a loop over the pages of a mapping works in.
  unfoldable pub enter : ℕ → Shared State → State → State
  enter task_id t m =
      if task_id == 0 then m else change_dir (get_or t.tasks (task_id - 1000) no_pool).pagedir m

  unfoldable pub leave : ℕ → ℕ → State → State
  leave task_id prev m = if task_id == 0 then m else change_dir prev m

  -- The loop of `sharedmem_map`, at the page `i`.
  unfoldable pub map_object : ℕ → ℕ → ℕ → ℕ → List ℕ → State → Outcome State
  map_object zero i vaddr flags frames m = ok m
  map_object (suc left) i vaddr flags frames m = do
    m₁ ← map_page (add32 vaddr (i * page_size)) (get_or frames i 0) flags m
    map_object left (i + 1) vaddr flags frames m₁

  unfoldable pub unmap_object : ℕ → ℕ → ℕ → State → Outcome State
  unmap_object zero i vaddr m = ok m
  unmap_object (suc left) i vaddr m = do
    m₁ ← unmap_page (add32 vaddr (page_size * i)) m
    unmap_object left (i + 1) vaddr m₁

  unfoldable pub sharedmem_map : ℕ → ℕ → Shared State → Outcome (ℕ × Shared State)
  unfolding kernel_assert pool_of with_pool map_object enter leave
  sharedmem_map id task_id t = do
    kernel_assert (not t.interrupts_enabled)
    kernel_assert (sharedmem_exists t.shmem id)
    let obj = object_at t.shmem id
    pool ← pool_of task_id t
    (vaddr, pool') ← insert_into_pool t.shmem id pool
    m ←
        map_object obj.size_in_pages 0 vaddr (page_flags task_id) obj.frames
          (enter task_id t t.memory)
    kernel_assert (not (vaddr == 0))
    ok (
      vaddr,
      with_pool task_id pool' (record t { memory = leave task_id (current_dir t.memory) m }),
    )

  unfoldable pub sharedmem_unmap : ℕ → ℕ → Shared State → Outcome (Shared State)
  unfolding kernel_assert pool_of with_pool unmap_object enter leave
  sharedmem_unmap id task_id t = do
    kernel_assert (not t.interrupts_enabled)
    kernel_assert (sharedmem_exists t.shmem id)
    let obj = object_at t.shmem id
    pool ← pool_of task_id t
    (pool_index, vaddr) ← elim (find_mapping id pool) [ none ↦ panic | some found ↦ ok found ]
    m ← unmap_object obj.size_in_pages 0 vaddr (enter task_id t t.memory)
    pool' ← remove_from_pool pool_index pool
    ok (with_pool task_id pool' (record t { memory = leave task_id (current_dir t.memory) m }))

  -- A loop of `sharedmem_destroy` over the pool of a task, at its mapping `i`; the pool is read
  -- again in each round.
  unfoldable pub unmap_from : ℕ → ℕ → ℕ → ℕ → Shared State → Outcome (Shared State)
  unfolding pool_of sharedmem_unmap
  unmap_from zero i id task_id t = spins
  unmap_from (suc fuel) i id task_id t = do
    pool ← pool_of task_id t
    let here = (get_or pool.mappings i no_mapping).shmem_obj == id
    let on : Outcome (Shared State) = do
      t' ← if here then sharedmem_unmap id task_id t else ok t
      unmap_from fuel (i + 1) id task_id t'
    if ltb i pool.num then on else ok t

  -- Its loop over the tasks, at the slot `k`.
  unfoldable pub unmap_tasks : ℕ → ℕ → ℕ → Shared State → Outcome (Shared State)
  unfolding unmap_from
  unmap_tasks zero k id t = ok t
  unmap_tasks (suc left) k id t = do
    let task = get_or t.tasks k no_pool
    t' ← if task.state == 0 then ok t else unmap_from 129 0 id task.id t
    unmap_tasks left (k + 1) id t'

  unfoldable pub free_frames : ℕ → ℕ → List ℕ → State → Outcome State
  free_frames zero i frames m = ok m
  free_frames (suc left) i frames m = do
    m₁ ← free_frame (get_or frames i 0) m
    free_frames left (i + 1) frames m₁

  unfoldable pub sharedmem_destroy : ℕ → Shared State → Outcome (Shared State)
  unfolding kernel_assert unmap_tasks unmap_from free_frames
  sharedmem_destroy id t = do
    kernel_assert (not t.interrupts_enabled)
    kernel_assert (sharedmem_exists t.shmem id)
    t₁ ← unmap_tasks 64 0 id t
    t₂ ← unmap_from 129 0 id 0 t₁
    let obj = object_at t₂.shmem id
    m₁ ← free_frames obj.size_in_pages 0 obj.frames t₂.memory
    m₂ ← kfree obj.physical_pages m₁
    ok (record t₂ { shmem = set t₂.shmem id no_object; memory = m₂ })
