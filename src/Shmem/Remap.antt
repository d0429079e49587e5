-- ===== src/Shmem/Remap.antt =====
-- kernel/sharedmem.c: mapping an object into a pool, and taking the mapping away.
use quad_os.Base.{
  ℕ, zero, suc, ◌+◌, ◌-◌, ◌*◌, ◌^◌, ◌≤◌, ◌<◌, ◌≡◌, ◌≢◌, ◌⊎◌, refl, sym, ap, ◌∙◌, subst, Bool, true,
  false, not, List, [], ◌∷◌, ◌++◌, some, ◌==◌, Bool-cases, inl, inr, length, length-append, All,
  get_or, get_or-set_self, length-set, take, take-append, remove_at, page_size, ltb, leb, ◌&&◌, ok,
  ◌>>=◌, Delivers, Delivers-bind, Delivers-map, Returns→Delivers, kernel_assert, arith,
}
use mathlib.Core.List.{append-nil}
use quad_os.Pools.{
  SharedMemory, Mapping, Pool, max_mappings, size_of, sharedmem_exists, insert_into_pool,
  remove_from_pool, find_mapping, find_mapping_from,
}
use quad_os.Pools.Laws.{IsPool, end_of, insert_into_pool-IsPool, remove_from_pool-IsPool}
use quad_os.Tasks.{get_task_index}
use quad_os.Shmem.{
  Pages, TaskPool, Shared, no_pool, object_at, page_flags, pool_of, with_pool, enter, leave,
  map_object, unmap_object, sharedmem_map, sharedmem_unmap,
}

asserted : (E : Type 0) (b : Bool) → b ≡ true → Delivers E (kernel_assert b) (λ _. Unit)
unfolding kernel_assert
asserted E true h = tt
asserted E false h = absurd (cc h)

-- The pool of this task is in the state: the kernel's always is.
abbrev pub Known : {S : Type 0} → ℕ → Shared S → Type 0
Known task_id t =
    (task_id ≡ 0) ⊎ ((1000 ≤ task_id) × (task_id < 2 ^ 31) × (task_id - 1000 < length t.tasks))

module _ {S : Type 0} where
  pool_of-with_pool :
      (task_id : ℕ) (pool : Pool) (t : Shared S)
      → Known task_id t
      → pool_of task_id (with_pool task_id pool t) ≡ ok pool
  unfolding pool_of with_pool get_task_index kernel_assert
  pool_of-with_pool task_id pool t (inl e) = rw e refl
  pool_of-with_pool task_id pool t (inr (low, high, inside)) =
      let ne : (task_id == 0) ≡ false = ground arith in
      let checked : (leb 1000 task_id && ltb task_id (2 ^ 31)) ≡ true = ground arith in
      rw (ne, checked)
        (ap (λ (p : TaskPool). ok p.shmem)
          (get_or-set_self t.tasks (task_id - 1000) _ no_pool inside))

  Known-with_pool :
      (task_id : ℕ) (pool : Pool) (t : Shared S)
      → Known task_id t
      → Known task_id (with_pool task_id pool t)
  unfolding with_pool
  Known-with_pool task_id pool t (inl e) = inl e
  Known-with_pool task_id pool t (inr (low, high, inside)) =
      let ne : (task_id == 0) ≡ false = ground arith in
      rw ne (
        inr (
          low,
          high,
          omega (
            arith,
            inside,
            length-set {0} t.tasks (task_id - 1000)
                (record (get_or t.tasks (task_id - 1000) no_pool) { shmem = pool }),
          ),
        ))

  same-with_pool :
      (task_id : ℕ) (pool : Pool) (t : Shared S)
      → ((with_pool task_id pool t).shmem ≡ t.shmem)
        × ((with_pool task_id pool t).interrupts_enabled ≡ t.interrupts_enabled)
  unfolding with_pool
  same-with_pool task_id pool t = elim (Bool-cases (task_id == 0)) [
    | inl e ↦ rw e (refl, refl)
    | inr ne ↦ rw ne (refl, refl)
  ]

-- The task's pool holds the mappings `ms`, with interrupts off.
pub record HasPool {S : Type 0} (hi task_id : ℕ) (t : Shared S) (ms : List Mapping) : Type 0 where
  pub off : t.interrupts_enabled ≡ false
  pub known : Known task_id t
  pub pool : Pool
  pub found : pool_of task_id t ≡ ok pool
  pub valid : IsPool t.shmem hi pool ms

HasPool-with_pool :
    {S : Type 0} (hi task_id : ℕ) (t : Shared S) (pool : Pool) (ms : List Mapping)
    → t.interrupts_enabled ≡ false
    → Known task_id t
    → IsPool t.shmem hi pool ms
    → HasPool hi task_id (with_pool task_id pool t) ms
HasPool-with_pool hi task_id t pool ms off known v = record {
  off = (same-with_pool task_id pool t).1 ∙ off;
  known = Known-with_pool task_id pool t known;
  pool = pool;
  found = pool_of-with_pool task_id pool t known;
  valid =
      subst (λ (objs : List SharedMemory). IsPool objs hi pool ms)
        (sym (same-with_pool task_id pool t).0) v;
}

remove_at-append :
    (ms : List Mapping) (m : Mapping) (ns : List Mapping)
    → remove_at (length ms) (ms ++ (m ∷ ns)) ≡ ms ++ ns
unfolding remove_at
remove_at-append [] m ns = refl
remove_at-append (x ∷ xs) m ns = ap (λ r. x ∷ r) (remove_at-append xs m ns)

find_mapping_from-first :
    (i id vaddr : ℕ) (ms ns : List Mapping)
    → All (λ m. m.shmem_obj ≢ id) ms
    → find_mapping_from i (ms ++ (record { vaddr = vaddr; shmem_obj = id } ∷ ns)) id
      ≡ some (i + length ms, vaddr)
unfolding find_mapping_from
find_mapping_from-first i id vaddr [] ns absent = ground arith
find_mapping_from-first i id vaddr (x ∷ xs) ns absent =
    let other : (x.shmem_obj == id) ≡ false = ground (arith, absent.0) in
    let same : i + 1 + length xs ≡ i + length (x ∷ xs) = omega arith in
    rw other (
      find_mapping_from-first (i + 1) id vaddr xs ns absent.1
      ∙ ap (λ (n : ℕ). some (n, vaddr)) same)

find_mapping-first :
    (shmem : List SharedMemory) (hi id vaddr : ℕ) (pool : Pool) (ms ns : List Mapping)
    → IsPool shmem hi pool (ms ++ (record { vaddr = vaddr; shmem_obj = id } ∷ ns))
    → All (λ m. m.shmem_obj ≢ id) ms
    → find_mapping id pool ≡ some (length ms, vaddr)
unfolding find_mapping
find_mapping-first shmem hi id vaddr pool ms ns v absent =
    let all = ms ++ (record { vaddr = vaddr; shmem_obj = id } ∷ ns) in
    let taken : take pool.num pool.mappings ≡ all =
      ap (λ (n : ℕ). take n pool.mappings) v.count
      ∙ (ap (λ (l : List Mapping). take (length all) l) v.entries ∙ take-append all v.spare) in
    rw taken (
      find_mapping_from-first 0 id vaddr ms ns absent
      ∙ ap (λ (n : ℕ). some (n, vaddr)) (omega arith))

module _ (P : Pages) where
  open P use {State, Exhausted, map_page, unmap_page, map_steady, unmap_steady, current_dir}

  map_object-steady :
      (left i vaddr flags : ℕ) (frames : List ℕ) (m : State)
      → Delivers Exhausted (map_object P left i vaddr flags frames m) (λ _. Unit)
  unfolding map_object
  map_object-steady zero i vaddr flags frames m = tt
  map_object-steady (suc left) i vaddr flags frames m =
      Delivers-bind _ (map_page _ _ flags m) _ _ _ (map_steady _ _ flags m)
        (λ m' _. map_object-steady left (i + 1) vaddr flags frames m')

  unmap_object-steady :
      (left i vaddr : ℕ) (m : State)
      → Delivers Exhausted (unmap_object P left i vaddr m) (λ _. Unit)
  unfolding unmap_object
  unmap_object-steady zero i vaddr m = tt
  unmap_object-steady (suc left) i vaddr m =
      Delivers-bind _ (unmap_page _ m) _ _ _ (unmap_steady _ m)
        (λ m' _. unmap_object-steady left (i + 1) vaddr m')

  -- With interrupts off, mapping an object that exists into a known pool, which is not full, has room
  -- for it below `hi` and begins above address 0, puts it behind all other mappings, which stay, and
  -- returns its address; the objects stay. It stops the machine only if the paging does.
  pub sharedmem_map-HasPool :
      (hi id task_id : ℕ) (t : Shared State) (ms : List Mapping)
      → (p : HasPool hi task_id t ms) → sharedmem_exists t.shmem id ≡ true
      → length ms < max_mappings
      → 0 < end_of t.shmem p.pool.vaddr_start ms
      → end_of t.shmem p.pool.vaddr_start ms + size_of t.shmem id * page_size ≤ hi
      → Delivers Exhausted (sharedmem_map P id task_id t) (λ r.
        HasPool hi task_id r.1 (ms ++ (record { vaddr = r.0; shmem_obj = id } ∷ []))
        × (r.0 ≡ end_of t.shmem p.pool.vaddr_start ms)
        × (r.1.shmem ≡ t.shmem))
  unfolding sharedmem_map
  sharedmem_map-HasPool hi id task_id t ms p exists room above fits =
      Delivers-bind _ (kernel_assert (not t.interrupts_enabled)) _ _ _ (asserted _ _ (ap not p.off))
        (λ _ _.
          rw (exists, p.found, kernel_assert)
            (Delivers-bind _ (insert_into_pool t.shmem id p.pool) _ _ _
              (Returns→Delivers _ (insert_into_pool t.shmem id p.pool) _
                (insert_into_pool-IsPool t.shmem hi id p.pool ms p.valid room fits))
              (λ r v.
                Delivers-bind _
                  (map_object P (size_of t.shmem id) 0 r.0 (page_flags task_id)
                    (object_at t.shmem id).frames (enter P task_id t t.memory))
                  _ _ _ (map_object-steady _ 0 r.0 _ _ _)
                  (λ m _.
                    let nonzero : (r.0 == 0) ≡ false = ground (arith, v.1, above) in
                    let t' : Shared State = record t {
                      memory = leave P task_id (current_dir t.memory) m;
                    } in
                    rw (nonzero, kernel_assert)
                      (
                        HasPool-with_pool hi task_id t' r.1
                            (ms ++ (record { vaddr = r.0; shmem_obj = id } ∷ [])) p.off p.known v.0,
                        v.1,
                        (same-with_pool task_id r.1 t').0,
                      )))))

  -- With interrupts off, unmapping an object that exists from a known pool takes away its first
  -- mapping; the other mappings and the objects stay. It stops the machine only if the paging does.
  pub sharedmem_unmap-HasPool :
      (hi id task_id vaddr : ℕ) (t : Shared State) (ms ns : List Mapping)
      → HasPool hi task_id t (ms ++ (record { vaddr = vaddr; shmem_obj = id } ∷ ns))
      → All (λ m. m.shmem_obj ≢ id) ms
      → sharedmem_exists t.shmem id ≡ true
      → Delivers Exhausted
          (sharedmem_unmap P id task_id t)
          (λ t'. HasPool hi task_id t' (ms ++ ns) × (t'.shmem ≡ t.shmem))
  unfolding sharedmem_unmap
  sharedmem_unmap-HasPool hi id task_id vaddr t ms ns p absent exists =
      let m : Mapping = record { vaddr = vaddr; shmem_obj = id } in
      let first : find_mapping id p.pool ≡ some (length ms, vaddr) =
        find_mapping-first t.shmem hi id vaddr p.pool ms ns p.valid absent in
      Delivers-bind _ (kernel_assert (not t.interrupts_enabled)) _ _ _ (asserted _ _ (ap not p.off))
        (λ _ _.
          rw (exists, p.found, first, kernel_assert)
            (Delivers-bind _
              (unmap_object P (size_of t.shmem id) 0 vaddr (enter P task_id t t.memory)) _ _ _
              (unmap_object-steady _ 0 vaddr _)
              (λ s _.
                Delivers-bind _ (remove_from_pool (length ms) p.pool) _ _ _
                  (Returns→Delivers _ (remove_from_pool (length ms) p.pool) _ (
                    remove_from_pool-IsPool t.shmem hi (length ms) p.pool (ms ++ (m ∷ ns)) p.valid
                      (omega (arith, length-append {0} ms (m ∷ ns)))))
                  (λ pool' v.
                    let t' : Shared State = record t {
                      memory = leave P task_id (current_dir t.memory) s;
                    } in
                    (
                      HasPool-with_pool hi task_id t' pool' (ms ++ ns) p.off p.known (
                          subst (λ (l : List Mapping). IsPool t.shmem hi pool' l)
                            (remove_at-append ms m ns) v),
                      (same-with_pool task_id pool' t').0,
                    )))))

  -- With interrupts off, mapping an object into a known pool that does not hold it, is not full, has
  -- room for it and begins above address 0, and unmapping it again, leaves the mappings and the
  -- objects as they were; the machine stops only if the paging does.
  pub map-unmap :
      (hi id task_id : ℕ) (t : Shared State) (ms : List Mapping)
      → (p : HasPool hi task_id t ms) → sharedmem_exists t.shmem id ≡ true
      → length ms < max_mappings
      → 0 < end_of t.shmem p.pool.vaddr_start ms
      → end_of t.shmem p.pool.vaddr_start ms + size_of t.shmem id * page_size ≤ hi
      → All (λ m. m.shmem_obj ≢ id) ms
      → Delivers Exhausted
          (sharedmem_map P id task_id t >>= λ r. sharedmem_unmap P id task_id r.1)
          (λ t'. HasPool hi task_id t' ms × (t'.shmem ≡ t.shmem))
  map-unmap hi id task_id t ms p exists room above fits absent =
      Delivers-bind _ (sharedmem_map P id task_id t) _ _ _
        (sharedmem_map-HasPool hi id task_id t ms p exists room above fits)
        (λ r mapped.
          Delivers-map _ (sharedmem_unmap P id task_id r.1) _ _
            (sharedmem_unmap-HasPool hi id task_id r.0 r.1 ms [] mapped.0 absent
              (ap (λ (objs : List SharedMemory). sharedmem_exists objs id) mapped.2 ∙ exists))
            (λ t' back. (
              subst (λ (l : List Mapping). HasPool hi task_id t' l) (append-nil ms) back.0,
              back.1 ∙ mapped.2,
            )))
