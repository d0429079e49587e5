-- ===== src/Malloc/Serve.antt =====
-- What `kmalloc` and `user_malloc` promise: a block that is large enough and aligned, apart from
-- every block in use, and a heap that is well formed again.
use quad_os.Base.{
  ℕ, ◌+◌, ◌%◌, ◌^◌, ◌≤◌, ◌<◌, ◌≡◌, refl, ap, true, false, List, [], ◌∷◌, Bool-cases, inl, inr, All,
  length, Outcome, Delivers, Delivers-bind, Delivers-map, arith,
}
use quad_os.Malloc.{
  init, change_heap_size, Headers, Chunk, Heap, header_size, fit_from, malloc, real_size,
}
use quad_os.Malloc.Chunks.{
  chunk, IsSized, total, first_fit, fit_offset, live, Coalesced, Inserted, live-first_fit,
  first_fit-IsSized, first_fit-Coalesced, first_fit-total,
}
use quad_os.Malloc.Layout.{Layout}
use quad_os.Malloc.Fit.{top, fit_from-Fitted}

-- The heap holds the chunks `cs`, with room for the stop chunk, in 32-bit addresses.
pub record IsHeap {S : Type 0} (h : Heap S) (cs : List Chunk) : Type 0 where
  pub layout : Layout h.headers h.heap_start cs
  pub sized : All IsSized cs
  pub coalesced : Coalesced false cs
  pub room : h.heap_start + total cs + header_size ≤ top h
  pub narrow : top h < 2 ^ 32
  pub small : total cs < 2 ^ 31
  pub aligned : h.heap_start % 16 ≡ 0

-- Blocks in the order of their addresses, from `lo` on, none overlapping the next.
unfoldable pub Disjoint : ℕ → List (ℕ × ℕ) → Type 0
Disjoint lo [] = Unit
Disjoint lo ((addr, size) ∷ blocks) = (lo ≤ addr) × Disjoint (addr + size) blocks

Disjoint-weaken : (lo lo' : ℕ) (bs : List (ℕ × ℕ)) → lo ≤ lo' → Disjoint lo' bs → Disjoint lo bs
unfolding Disjoint
Disjoint-weaken lo lo' [] h d = tt
Disjoint-weaken lo lo' ((a, s) ∷ bs) h d = (omega arith, d.1)

pub live-Disjoint : (pos : ℕ) (cs : List Chunk) → Disjoint pos (live pos cs)
unfolding live Disjoint
live-Disjoint pos [] = tt
live-Disjoint pos (c ∷ cs) = elim (Bool-cases c.used) [
  | inl used ↦ rw used (omega arith, live-Disjoint (pos + c.size) cs)
  | inr free ↦
      rw free (Disjoint-weaken pos (pos + c.size) _ (omega arith) (live-Disjoint (pos + c.size) cs))
]

-- The rounded size of a request that does not wrap: a header more, and less than 16 bytes more.
pub real_size_lem :
    (bytes : ℕ)
    → bytes < 2 ^ 31
    → (bytes + header_size ≤ real_size bytes)
      × (real_size bytes < bytes + header_size + 16)
      × (real_size bytes % 16 ≡ 0)
unfolding real_size
real_size_lem bytes small = ground arith

wraps : (bytes : ℕ) → 2 ^ 32 ≤ bytes + 15 → bytes < 2 ^ 32 → real_size bytes ≡ real_size 0
unfolding real_size
wraps bytes near small = ground arith

fit_offset-aligned : (real : ℕ) (cs : List Chunk) → All IsSized cs → fit_offset real cs % 16 ≡ 0
unfolding fit_offset
fit_offset-aligned real [] v = refl
fit_offset-aligned real (c ∷ cs) v = ground (arith, fit_offset-aligned real cs v.1, v.0.aligned)

-- The abstract view of one allocation of `bytes` bytes at `addr`.
pub record Served {S : Type 0} (bytes : ℕ) (h : Heap S) (cs : List Chunk) (addr : ℕ) (h' : Heap S)
    : Type 0 where
  pub address : addr ≡ h.heap_start + fit_offset (real_size bytes) cs + header_size
  pub aligned : addr % 16 ≡ 0
  pub start : h'.heap_start ≡ h.heap_start
  pub heap : IsHeap h' (first_fit (real_size bytes) cs)
  pub added :
      Inserted
        (live h.heap_start cs)
        (live h.heap_start (first_fit (real_size bytes) cs))
        (h.heap_start + fit_offset (real_size bytes) cs)
        (bytes + header_size)
  pub disjoint : Disjoint h.heap_start (live h.heap_start (first_fit (real_size bytes) cs))

module _ {S : Type 0} (Backed : ℕ → ℕ → S → Type 0) (E : Type 0) (change : ℕ → ℕ → S → Outcome S)
    (grows : (start old new : ℕ) (s : S)
      → old < new
      → start + new < 2 ^ 32
      → Backed start old s
      → Delivers E (change old new s) (Backed start new)) where
  -- An allocation serves the request, and what growing the heap keeps of its pages still holds.
  pub malloc-Served_backed :
      (fuel bytes : ℕ) (h : Heap S) (cs : List Chunk)
      → IsHeap h cs
      → Backed h.heap_start h.heap_size h.pages
      → length cs < fuel
      → total cs + bytes + 64 ≤ 2 ^ 31
      → h.heap_start + total cs + bytes + 64 ≤ 2 ^ 32
      → Delivers E
          (malloc change fuel bytes h)
          (λ r. Served bytes h cs r.0 r.1 × Backed r.1.heap_start r.1.heap_size r.1.pages)
  unfolding malloc
  malloc-Served_backed fuel bytes h cs v backed f small32 small =
      let real = real_size_lem bytes (omega arith) in
      let r : IsSized (chunk (real_size bytes) true) = omega (arith, real) in
      Delivers-map _ (fit_from change fuel (real_size bytes) h.heap_start h) _ _
        (fit_from-Fitted Backed E change grows fuel (real_size bytes) h.heap_start h cs f r v.sized
          (omega arith) v.narrow (omega (arith, real)) v.room v.layout backed)
        (λ res done.
          let ins = live-first_fit (real_size bytes) h.heap_start cs in
          (
            record {
              address = done.address;
              aligned =
                  omega (
                    arith,
                    done.address,
                    v.aligned,
                    fit_offset-aligned (real_size bytes) cs v.sized,
                  );
              start = done.start;
              heap = record {
                layout = rw done.start done.layout;
                sized = first_fit-IsSized (real_size bytes) cs r v.sized;
                coalesced = first_fit-Coalesced false (real_size bytes) cs v.coalesced;
                room = omega (arith, done.start, done.room);
                narrow = done.narrow;
                small = omega (arith, first_fit-total (real_size bytes) cs, real);
                aligned = rw done.start v.aligned;
              };
              added = record {
                size = ins.size;
                before = ins.before;
                behind = ins.behind;
                large = omega (arith, ins.large, real);
                was = ins.was;
                became = ins.became;
              };
              disjoint = live-Disjoint h.heap_start (first_fit (real_size bytes) cs);
            },
            done.backed,
          ))

  -- Initialisation with room for one header at an aligned start leaves an empty, well-formed heap; it
  -- stops the machine only if growing the heap does.
  pub init-IsHeap :
      (start initial : ℕ) (m : Headers) (s : S)
      → header_size ≤ initial
      → start + initial < 2 ^ 32
      → start % 16 ≡ 0
      → Backed start 0 s
      → Delivers E
          (init change start initial m s)
          (λ h. IsHeap h [] × (h.heap_start ≡ start) × Backed start initial h.pages)
  unfolding init Layout Coalesced total
  init-IsHeap start initial m s large small aligned backed =
      Delivers-bind _
        (change_heap_size change initial
          (record { headers = m; heap_start = start; heap_size = 0; threshold = 0; pages = s }))
        _ (λ h. (h.heap_start ≡ start) × (h.heap_size ≡ initial) × Backed start initial h.pages) _
        (Delivers-bind _ (change 0 initial s) _ (Backed start initial) _
          (grows start 0 initial s (omega arith) small backed) (λ s' b. (refl, refl, b)))
        (λ h e. (
          record {
            layout = ground arith;
            sized = tt;
            coalesced = refl;
            room = omega (arith, e.0, e.1);
            narrow = omega (arith, e.0, e.1);
            small = omega arith;
            aligned = rw e.0 aligned;
          },
          e.0,
          e.2,
        ))

module _ {S : Type 0} (E : Type 0) (change : ℕ → ℕ → S → Outcome S)
    (steady : (old new : ℕ) (s : S) → Delivers E (change old new s) (λ _. Unit)) where
  -- When growing the heap never loops: from a well-formed heap, with fuel for its chunks and a request
  -- that fits the address space, an allocation returns and serves the request at the first place that
  -- fits, aligned and apart from all blocks in use; it stops the machine only if growing the heap does.
  pub malloc-Served :
      (fuel bytes : ℕ) (h : Heap S) (cs : List Chunk)
      → IsHeap h cs
      → length cs < fuel
      → total cs + bytes + 64 ≤ 2 ^ 31
      → h.heap_start + total cs + bytes + 64 ≤ 2 ^ 32
      → Delivers E (malloc change fuel bytes h) (λ r. Served bytes h cs r.0 r.1)
  malloc-Served fuel bytes h cs v f small32 small =
      Delivers-map _ (malloc change fuel bytes h) _ _
        (malloc-Served_backed (λ start size s. Unit) E change
          (λ start old new s more fits b. steady old new s) fuel bytes h cs v tt f small32 small)
        (λ r done. done.0)

  -- The size of a request within 15 bytes of 2 ^ 32 wraps: it is served as one of 0 bytes.
  pub malloc_wraps :
      (fuel bytes : ℕ) (h : Heap S)
      → 2 ^ 32 ≤ bytes + 15
      → bytes < 2 ^ 32
      → malloc change fuel bytes h ≡ malloc change fuel 0 h
  unfolding malloc real_size
  malloc_wraps fuel bytes h near small =
      ap (λ (r : ℕ). fit_from change fuel r h.heap_start h) (wraps bytes near small)
