-- ===== src/Pools/Laws.antt =====
-- kernel/sharedmem.c: the mappings of a pool never overlap.
use quad_os.Base.{
  ℕ, zero, suc, ◌+◌, ◌-◌, ◌*◌, ◌^◌, ◌≤◌, ◌<◌, ◌≡◌, refl, ap, ◌∙◌, true, List, [], ◌∷◌, ◌++◌, ltb,
  length, length-append, get_or, set, length-set, remove_at, shift_left, shift_left_within,
  page_size, Returns, kernel_assert, arith,
}
use quad_os.Pools.{
  SharedMemory, Mapping, Pool, max_mappings, no_mapping, size_of, next_vaddr, insert_into_pool,
  remove_from_pool,
}

-- The address behind a mapping.
abbrev pub behind : List SharedMemory → Mapping → ℕ
behind shmem m = m.vaddr + size_of shmem m.shmem_obj * page_size

-- The mappings `ms` stand one behind the other from `lo` to `hi`, apart from each other.
unfoldable pub Laid : List SharedMemory → ℕ → ℕ → List Mapping → Type 0
Laid shmem lo hi [] = lo ≤ hi
Laid shmem lo hi (m ∷ ms) = (lo ≤ m.vaddr) × Laid shmem (behind shmem m) hi ms

-- The pool holds the mappings `ms`, apart from each other in the region that ends at `hi`.
pub record IsPool (shmem : List SharedMemory) (hi : ℕ) (pool : Pool) (ms : List Mapping)
    : Type 0 where
  pub spare : List Mapping
  pub entries : pool.mappings ≡ ms ++ spare
  pub count : pool.num ≡ length ms
  pub table : length pool.mappings ≡ max_mappings
  pub laid : Laid shmem pool.vaddr_start hi ms
  pub narrow : hi < 2 ^ 32

-- Where the mappings end.
unfoldable pub end_of : List SharedMemory → ℕ → List Mapping → ℕ
end_of shmem lo [] = lo
end_of shmem lo (m ∷ ms) = end_of shmem (behind shmem m) ms

pub end_of-le :
    (shmem : List SharedMemory) (lo hi : ℕ) (ms : List Mapping)
    → Laid shmem lo hi ms
    → end_of shmem lo ms ≤ hi
unfolding Laid end_of
end_of-le shmem lo hi [] h = h
end_of-le shmem lo hi (m ∷ ms) h = end_of-le shmem (behind shmem m) hi ms h.1

Laid-lower :
    (shmem : List SharedMemory) (lo lo' hi : ℕ) (ms : List Mapping)
    → lo ≤ lo'
    → Laid shmem lo' hi ms
    → Laid shmem lo hi ms
unfolding Laid
Laid-lower shmem lo lo' hi [] le h = omega arith
Laid-lower shmem lo lo' hi (m ∷ ms) le h = (omega (arith, h.0), h.1)

Laid-append :
    (shmem : List SharedMemory) (lo hi hi' : ℕ) (ms : List Mapping) (m : Mapping)
    → Laid shmem lo hi ms
    → m.vaddr ≡ end_of shmem lo ms
    → behind shmem m ≤ hi'
    → Laid shmem lo hi' (ms ++ (m ∷ []))
unfolding Laid end_of
Laid-append shmem lo hi hi' [] m h at fits = (omega (arith, at), fits)
Laid-append shmem lo hi hi' (n ∷ ns) m h at fits =
    (h.0, Laid-append shmem (behind shmem n) hi hi' ns m h.1 at fits)

Laid-remove_at :
    (shmem : List SharedMemory) (lo hi k : ℕ) (ms : List Mapping)
    → Laid shmem lo hi ms
    → Laid shmem lo hi (remove_at k ms)
unfolding Laid remove_at
Laid-remove_at shmem lo hi k [] h = h
Laid-remove_at shmem lo hi zero (m ∷ ms) h =
    Laid-lower shmem lo (behind shmem m) hi ms (omega (arith, h.0)) h.1
Laid-remove_at shmem lo hi (suc k) (m ∷ ms) h =
    (h.0, Laid-remove_at shmem (behind shmem m) hi k ms h.1)

-- The last mapping says where the mappings end.
last-end :
    (shmem : List SharedMemory) (lo : ℕ) (m : Mapping) (ms spare : List Mapping)
    → let last = get_or ((m ∷ ms) ++ spare) (length ms) no_mapping in
      behind shmem last ≡ end_of shmem lo (m ∷ ms)
unfolding end_of
last-end shmem lo m [] spare = refl
last-end shmem lo m (n ∷ ns) spare = last-end shmem lo n ns spare

next_vaddr-end :
    (shmem : List SharedMemory) (hi : ℕ) (pool : Pool) (ms : List Mapping)
    → IsPool shmem hi pool ms
    → next_vaddr shmem pool ≡ end_of shmem pool.vaddr_start ms
unfolding next_vaddr end_of
next_vaddr-end shmem hi pool [] v = ground (arith, v.count)
next_vaddr-end shmem hi pool (m ∷ ms) v =
    let e = last-end shmem pool.vaddr_start m ms v.spare in
    let below = end_of-le shmem pool.vaddr_start hi (m ∷ ms) v.laid in
    let index : pool.num - 1 ≡ length ms = omega (arith, v.count) in
    let some_in : ltb 0 pool.num ≡ true = ground (arith, v.count) in
    rw (some_in, index, v.entries) (omega (arith, e, below, v.narrow))

set_end :
    (ms spare : List Mapping) (m : Mapping)
    → length ms < length (ms ++ spare)
    → (rest : List Mapping) × (set (ms ++ spare) (length ms) m ≡ (ms ++ (m ∷ [])) ++ rest)
set_end [] [] m h = elim h [ ]
set_end [] (s ∷ spare) m h = (spare, refl)
set_end (x ∷ xs) spare m h =
    let (rest, e) = set_end xs spare m (omega arith) in (rest, ap (λ r. x ∷ r) e)

-- Inserting an object that fits the region below `hi`, into a pool that is not full, returns: its
-- mapping is put behind all others, which stay where they are.
pub insert_into_pool-IsPool :
    (shmem : List SharedMemory) (hi id : ℕ) (pool : Pool) (ms : List Mapping)
    → IsPool shmem hi pool ms
    → length ms < max_mappings
    → end_of shmem pool.vaddr_start ms + size_of shmem id * page_size ≤ hi
    → Returns (insert_into_pool shmem id pool) (λ r.
      IsPool shmem hi r.1 (ms ++ (record { vaddr = r.0; shmem_obj = id } ∷ []))
      × (r.0 ≡ end_of shmem pool.vaddr_start ms))
unfolding insert_into_pool
insert_into_pool-IsPool shmem hi id pool ms v room fits =
    let not_full : ltb pool.num max_mappings ≡ true = ground (arith, v.count) in
    let at : next_vaddr shmem pool ≡ end_of shmem pool.vaddr_start ms =
      next_vaddr-end shmem hi pool ms v in
    let m : Mapping = record { vaddr = next_vaddr shmem pool; shmem_obj = id } in
    let (rest, e) =
      set_end ms v.spare m
        (omega (arith, ap (λ (l : List Mapping). length l) v.entries, v.table)) in
    rw (not_full, kernel_assert, Returns)
      (
        record {
          spare = rest;
          entries =
              ap (λ (l : List Mapping). set l pool.num m) v.entries
              ∙ (ap (λ (n : ℕ). set (ms ++ v.spare) n m) v.count ∙ e);
          count = omega (arith, v.count, length-append {0} ms (m ∷ []));
          table = length-set pool.mappings pool.num m ∙ v.table;
          laid = Laid-append shmem pool.vaddr_start hi hi ms m v.laid at (omega (arith, at, fits));
          narrow = v.narrow;
        },
        at,
      )

length-remove_at :
    (k : ℕ) (ms : List Mapping) → k < length ms → length (remove_at k ms) + 1 ≡ length ms
unfolding remove_at
length-remove_at k [] h = elim h [ ]
length-remove_at zero (m ∷ ms) h = omega arith
length-remove_at (suc k) (m ∷ ms) h = omega (arith, length-remove_at k ms (omega arith))

-- Removing a mapping of a pool returns; the others keep their addresses and their order.
pub remove_from_pool-IsPool :
    (shmem : List SharedMemory) (hi index : ℕ) (pool : Pool) (ms : List Mapping)
    → IsPool shmem hi pool ms
    → index < length ms
    → Returns (remove_from_pool index pool) (λ pool'. IsPool shmem hi pool' (remove_at index ms))
unfolding remove_from_pool
remove_from_pool-IsPool shmem hi index pool ms v inside =
    let there : ltb index pool.num ≡ true = ground (arith, v.count) in
    let (e, shifted) = shift_left_within no_mapping index ms v.spare inside in
    let left : shift_left no_mapping index (pool.num - 1 - index) pool.mappings
        ≡ remove_at index ms ++ (e ∷ v.spare) =
      ap (λ (l : List Mapping). shift_left no_mapping index (pool.num - 1 - index) l) v.entries
      ∙ (ap (λ (n : ℕ). shift_left no_mapping index (n - 1 - index) (ms ++ v.spare)) v.count
          ∙ shifted) in
    let n = length-remove_at index ms inside in
    rw (there, kernel_assert, Returns)
      (record {
        spare = e ∷ v.spare;
        entries = left;
        count = omega (arith, v.count, n);
        table =
            let a = ap (λ (l : List Mapping). length l) left in
            let b = ap (λ (l : List Mapping). length l) v.entries in
            omega (
              arith,
              a,
              b,
              v.table,
              n,
              length-append {0} ms v.spare,
              length-append {0} (remove_at index ms) (e ∷ v.spare),
            );
        laid = Laid-remove_at shmem pool.vaddr_start hi index ms v.laid;
        narrow = v.narrow;
      })
