-- ===== src/Shmem/Examples.antt =====
-- kernel/sharedmem.c: two objects, of which the first is mapped by the kernel and by no task.
use quad_os.Base.{
  ℕ, ◌+◌, ◌≡◌, ◌⊎◌, inl, refl, false, List, [], ◌∷◌, ◌++◌, replicate, length-replicate, ok, ◌>>=◌,
  Delivers, arith,
}
use quad_os.Pools.{SharedMemory, Mapping, Pool, no_object, no_mapping, sharedmem_exists}
use quad_os.Pools.Laws.{IsPool, Laid, end_of}
use quad_os.Shmem.{
  Pages, no_pool, Shared, pool_of, sharedmem_create, sharedmem_map, sharedmem_unmap,
}
use quad_os.Shmem.Create.{Created, AllUsed, sharedmem_create-Created}
use quad_os.Shmem.Remap.{HasPool, sharedmem_map-HasPool, map-unmap}

-- The state is the next free frame and the page directory in use.
abbrev frames : Pages
frames = record {
  State = ℕ × ℕ;
  Exhausted = ⊥;
  kmalloc = λ bytes s. ok (0xd000_0000, s);
  kfree = λ addr s. ok s;
  alloc_frame = λ s. ok (s.0, (s.0 + 0x1000, s.1));
  free_frame = λ addr s. ok s;
  map_page = λ v p flags s. ok s;
  unmap_page = λ v s. ok s;
  current_dir = λ s. s.1;
  change_dir = λ dir s. (s.0, dir);
  kmalloc_steady = λ bytes s. tt;
  alloc_steady = λ s. tt;
  map_steady = λ v p flags s. tt;
  unmap_steady = λ v s. tt;
}

abbrev object : ℕ → SharedMemory
object pages = record no_object { size_in_pages = pages }

abbrev mapped : List Mapping
mapped = record { vaddr = 0xf000_0000; shmem_obj = 0 } ∷ []

abbrev kernel_pool : Pool
kernel_pool = record {
  mappings = mapped ++ replicate 127 no_mapping;
  num = 1;
  vaddr_start = 0xf000_0000;
}

abbrev two_objects : Shared (ℕ × ℕ)
two_objects = record {
  shmem = object 2 ∷ (object 3 ∷ replicate 254 no_object);
  kernel_shmem_mappings = kernel_pool;
  tasks = replicate 64 no_pool;
  interrupts_enabled = false;
  memory = (0x10_0000, 0x1000);
}

kernel_pool-IsPool : IsPool two_objects.shmem 0xffff_f000 kernel_pool mapped
unfolding Laid
kernel_pool-IsPool = record {
  spare = replicate 127 no_mapping;
  entries = refl;
  count = refl;
  table = omega (arith, length-replicate {0} 127 no_mapping);
  laid = (omega arith, omega arith);
  narrow = omega arith;
}

unfoldable kernel_has_pool : HasPool 0xffff_f000 0 two_objects mapped
unfolding pool_of
kernel_has_pool = record {
  off = refl;
  known = inl refl;
  pool = kernel_pool;
  found = refl;
  valid = kernel_pool-IsPool;
}

sharedmem_create-Created_example :
    Delivers
      (⊥ ⊎ AllUsed two_objects.shmem)
      (sharedmem_create frames 5000 1003 two_objects)
      (λ r. Created frames 5000 1003 two_objects r.0 r.1)
sharedmem_create-Created_example =
    sharedmem_create-Created frames 5000 1003 two_objects refl (omega arith) (omega arith)

sharedmem_map-HasPool_example : Delivers ⊥ (sharedmem_map frames 1 0 two_objects) (λ r.
    HasPool 0xffff_f000 0 r.1 (mapped ++ (record { vaddr = r.0; shmem_obj = 1 } ∷ []))
    × (r.0 ≡ end_of two_objects.shmem 0xf000_0000 mapped)
    × (r.1.shmem ≡ two_objects.shmem))
unfolding sharedmem_exists kernel_has_pool
sharedmem_map-HasPool_example =
    sharedmem_map-HasPool frames 0xffff_f000 1 0 two_objects mapped kernel_has_pool refl
      (omega arith) (unfold end_of in omega arith) (unfold end_of in omega arith)

map-unmap_example :
    Delivers ⊥
      (sharedmem_map frames 1 0 two_objects >>= λ r. sharedmem_unmap frames 1 0 r.1)
      (λ t'. HasPool 0xffff_f000 0 t' mapped × (t'.shmem ≡ two_objects.shmem))
unfolding sharedmem_exists kernel_has_pool
map-unmap_example =
    map-unmap frames 0xffff_f000 1 0 two_objects mapped kernel_has_pool refl (omega arith)
      (unfold end_of in omega arith) (unfold end_of in omega arith) (λ e. omega arith, tt)
