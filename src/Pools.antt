-- ===== src/Pools.antt =====
-- kernel/sharedmem.c: the shared memory objects, and the pool of a task's (or the kernel's) mappings
-- of them to addresses.
pub mod Laws
use quad_os.Base.{
  ℕ, zero, suc, ◌+◌, ◌-◌, ◌*◌, ◌%◌, ◌^◌, Bool, true, false, not, ◌&&◌, List, [], ◌∷◌, Option, none,
  some, ◌==◌, ltb, leb, if◌then◌else◌, get_or, set, take, replicate, shift_left, add32, mul32,
  page_size, Outcome, ok, panic, ◌>>=◌, ◌>>◌, kernel_assert,
}

-- `frames` is what the array at `physical_pages` holds.
pub record SharedMemory : Type 0 where
  pub size_in_pages : ℕ
  pub physical_pages : ℕ
  pub frames : List ℕ
  pub owner_task_id : ℕ

pub record Mapping : Type 0 where
  pub vaddr : ℕ
  pub shmem_obj : ℕ

pub record Pool : Type 0 where
  pub mappings : List Mapping
  pub num : ℕ
  pub vaddr_start : ℕ

abbrev pub max_objs : ℕ
max_objs = 256

abbrev pub max_mappings : ℕ
max_mappings = 128

abbrev pub no_object : SharedMemory
no_object = record { size_in_pages = 0; physical_pages = 0; frames = []; owner_task_id = 0 }

abbrev pub no_mapping : Mapping
no_mapping = record { vaddr = 0; shmem_obj = 0 }

abbrev pub size_of : List SharedMemory → ℕ → ℕ
size_of shmem id = (get_or shmem id no_object).size_in_pages

-- `id < 0 || id >= MAX_SHARED_MEMORY_OBJS` on the bit pattern of an `int32_t`
unfoldable pub sharedmem_exists : List SharedMemory → ℕ → Bool
sharedmem_exists shmem id = if leb max_objs id then false else not (size_of shmem id == 0)

-- The first slot without an object, from `i` on.
unfoldable pub find_shmem_from : ℕ → List SharedMemory → Option ℕ
find_shmem_from i [] = none
find_shmem_from i (obj ∷ objs) =
    let rest = find_shmem_from (i + 1) objs in if obj.size_in_pages == 0 then some i else rest

unfoldable pub find_available_shmem_slot : List SharedMemory → Outcome ℕ
unfolding find_shmem_from
find_available_shmem_slot shmem = elim (find_shmem_from 0 shmem) [ none ↦ panic | some i ↦ ok i ]

-- The address behind the last mapping.
unfoldable pub next_vaddr : List SharedMemory → Pool → ℕ
next_vaddr shmem pool =
    let prev = get_or pool.mappings (pool.num - 1) no_mapping in
    if ltb 0 pool.num
    then add32 prev.vaddr (mul32 (size_of shmem prev.shmem_obj) page_size)
    else pool.vaddr_start

-- The pointer that it returns is to the mapping at the old `num`; the callers read its address.
unfoldable pub insert_into_pool : List SharedMemory → ℕ → Pool → Outcome (ℕ × Pool)
unfolding kernel_assert next_vaddr
insert_into_pool shmem shmem_id pool = do
  kernel_assert (ltb pool.num max_mappings)
  let vaddr = next_vaddr shmem pool
  ok (
    vaddr,
    record pool {
      mappings = set pool.mappings pool.num (record { vaddr = vaddr; shmem_obj = shmem_id });
      num = pool.num + 1;
    },
  )

unfoldable pub remove_from_pool : ℕ → Pool → Outcome Pool
unfolding kernel_assert
remove_from_pool index pool = do
  kernel_assert (ltb index pool.num)
  ok (record pool {
    mappings = shift_left no_mapping index (pool.num - 1 - index) pool.mappings;
    num = pool.num - 1;
  })

-- The first mapping of an object, of those from `i` on: its index and its address.
unfoldable pub find_mapping_from : ℕ → List Mapping → ℕ → Option (ℕ × ℕ)
find_mapping_from i [] id = none
find_mapping_from i (m ∷ ms) id =
    let rest = find_mapping_from (i + 1) ms id in
    if m.shmem_obj == id then some (i, m.vaddr) else rest

-- The loop of `sharedmem_unmap` over the mappings of the pool.
unfoldable pub find_mapping : ℕ → Pool → Option (ℕ × ℕ)
unfolding find_mapping_from take
find_mapping id pool = find_mapping_from 0 (take pool.num pool.mappings) id
