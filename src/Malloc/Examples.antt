-- ===== src/Malloc/Examples.antt =====
-- The shared allocator on a small heap: 32 bytes in use, 48 free, 16 in use.
use quad_os.Base.{
  ℕ, ◌≡◌, ◌==◌, refl, true, false, List, [], ◌∷◌, if◌then◌else◌, Outcome, ok, Delivers, Returns,
  arith,
}
use quad_os.Malloc.{Chunk, Heap, malloc, free, real_size, ensure_room, place}
use quad_os.Malloc.Chunks.{chunk, total, Coalesced}
use quad_os.Malloc.Layout.{Layout}
use quad_os.Malloc.Serve.{IsHeap, Served, malloc-Served, malloc_wraps}
use quad_os.Malloc.Release.{Released, free-Released}
use quad_os.Malloc.RoundTrip.{malloc-free}

-- The heap may grow without asking anyone.
abbrev grow : ℕ → ℕ → Unit {0} → Outcome (Unit {0})
grow old new s = ok tt

grow-steady : (old new : ℕ) (s : Unit {0}) → Delivers ⊥ (grow old new s) (λ _. Unit)
grow-steady old new s = tt

abbrev chunks : List Chunk
chunks = chunk 32 true ∷ (chunk 48 false ∷ (chunk 16 true ∷ []))

abbrev small_heap : Heap (Unit {0})
small_heap = record {
  headers = λ a.
      if a == 0x1000
      then chunk 32 true
      else if a == 0x1020
      then chunk 48 false
      else if a == 0x1050
      then chunk 16 true
      else chunk 0 false;
  heap_start = 0x1000;
  heap_size = 0x80;
  threshold = 0x1060;
  pages = tt;
}

small_heap-IsHeap : IsHeap small_heap chunks
unfolding Layout Coalesced total
small_heap-IsHeap = record {
  layout = (refl, (refl, (refl, refl)));
  sized = omega arith;
  coalesced = (refl, (refl, (refl, refl)));
  room = omega arith;
  narrow = omega arith;
  small = omega arith;
  aligned = refl;
}

malloc_splits : Delivers ⊥ (malloc grow 4 10 small_heap) (λ r. r.0 ≡ 0x1030)
unfolding malloc real_size ensure_room place
malloc_splits = refl

malloc-Served_example :
    Delivers ⊥ (malloc grow 4 10 small_heap) (λ r. Served 10 small_heap chunks r.0 r.1)
malloc-Served_example =
    malloc-Served ⊥ grow grow-steady 4 10 small_heap chunks small_heap-IsHeap (omega arith)
      (unfold total in omega arith) (unfold total in omega arith)

malloc-free_example :
    Delivers ⊥
      (malloc grow 5 10 small_heap)
      (λ r. Returns (free 5 r.0 r.1) (λ h''. IsHeap h'' chunks × (h''.heap_start ≡ 0x1000)))
malloc-free_example =
    malloc-free ⊥ grow grow-steady 5 10 small_heap chunks small_heap-IsHeap (omega arith)
      (unfold total in omega arith) (unfold total in omega arith)

-- The third chunk is freed: it and the free chunk before it vanish.
free-Released_example :
    Returns
      (free 4 0x1060 small_heap)
      (Released small_heap (chunk 32 true ∷ (chunk 48 false ∷ [])) (chunk 16 true) [])
unfolding total
free-Released_example =
    free-Released 4 small_heap (chunk 32 true ∷ (chunk 48 false ∷ [])) (chunk 16 true) []
      small_heap-IsHeap refl (omega arith)

malloc_wraps_example : malloc grow 4 0xffff_fff8 small_heap ≡ malloc grow 4 0 small_heap
malloc_wraps_example =
    malloc_wraps ⊥ grow grow-steady 4 0xffff_fff8 small_heap (omega arith) (omega arith)
