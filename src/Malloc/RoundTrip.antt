-- ===== src/Malloc/RoundTrip.antt =====
-- Freeing the block that was just allocated restores the chunks of the heap, in kernel/kmalloc.c and
-- userspace/api/src/malloc.c.
use quad_os.Base.{
  ℕ, ◌+◌, ◌-◌, ◌^◌, ◌≤◌, ◌<◌, ◌≡◌, refl, ap, ◌∙◌, subst, true, false, not, List, [], ◌∷◌, ◌++◌,
  if◌then◌else◌, ◌==◌, leb, Bool-cases, inl, inr, All, length, Outcome, Delivers, Delivers-map,
  Returns, Returns-map, arith,
}
use quad_os.Malloc.{Chunk, Heap, header_size, malloc, free, real_size}
use quad_os.Malloc.Chunks.{chunk, IsSized, total, first_fit, fit_offset, absorb, Coalesced}
use quad_os.Malloc.Serve.{IsHeap, Served, real_size_lem, malloc-Served}
use quad_os.Malloc.Release.{free-Released}

-- A free chunk of `acc` bytes in front of `cs`, if `acc` is not 0.
flush : ℕ → List Chunk → List Chunk
flush acc cs = if acc == 0 then cs else chunk acc false ∷ cs

-- Merging leaves a heap alone that has no two free chunks side by side and none at the end.
absorb-flush :
    (acc : ℕ) (cs : List Chunk)
    → All IsSized cs
    → Coalesced (not (acc == 0)) cs
    → absorb acc cs ≡ flush acc cs
unfolding absorb flush Coalesced
absorb-flush acc [] v co = ground arith
absorb-flush acc (c ∷ cs) v co = elim (Bool-cases c.used) [
  | inl used ↦ ground (arith, absorb-flush 0 cs v.1)
  | inr free ↦ ground (arith, absorb-flush (acc + c.size) cs v.1, v.0.nonzero)
]

run_restored :
    (acc : ℕ) (c : Chunk) (cs : List Chunk)
    → All IsSized (c ∷ cs)
    → c.used ≡ false
    → Coalesced (not (acc == 0)) (c ∷ cs)
    → absorb (acc + c.size) cs ≡ flush acc (c ∷ cs)
unfolding flush Coalesced
run_restored acc c cs v free co = ground (arith, absorb-flush (acc + c.size) cs v.1, v.0.nonzero)

-- The chunk that first fit takes, and what merging does once it is free again.
record Taken (acc real : ℕ) (cs : List Chunk) : Type 0 where
  size : ℕ
  front : List Chunk
  back : List Chunk
  found : first_fit real cs ≡ front ++ (chunk size true ∷ back)
  offset : total front ≡ fit_offset real cs
  undone : absorb acc (front ++ (chunk size false ∷ back)) ≡ flush acc cs

first_fit-Taken :
    (acc real : ℕ) (cs : List Chunk)
    → 0 < real
    → All IsSized cs
    → Coalesced (not (acc == 0)) cs
    → Taken acc real cs
unfolding first_fit fit_offset absorb flush total Coalesced
first_fit-Taken acc real [] r v co = record {
  size = real;
  front = [];
  back = [];
  found = refl;
  offset = refl;
  undone = ground arith;
}
first_fit-Taken acc real (c ∷ cs) r v co = elim (Bool-cases c.used) [
  | inl used ↦
      let t = first_fit-Taken 0 real cs r v.1 (ground arith) in
      record {
        size = t.size;
        front = c ∷ t.front;
        back = t.back;
        found = ground (arith, t.found);
        offset = ground (arith, t.offset);
        undone = ground (arith, t.undone);
      }
  | inr free ↦ elim (Bool-cases (leb real c.size)) [
    | inr small ↦
        let t = first_fit-Taken (acc + c.size) real cs r v.1 (ground (arith, v.0.nonzero)) in
        record {
          size = t.size;
          front = c ∷ t.front;
          back = t.back;
          found = ground (arith, t.found);
          offset = ground (arith, t.offset);
          undone = ground (arith, t.undone, v.0.nonzero);
        }
    | inl large ↦ elim (Bool-cases (leb 8 (c.size - real))) [
      | inl split ↦ record {
        size = real;
        front = [];
        back = chunk (c.size - real) false ∷ cs;
        found = simp (free, large, split) refl;
        offset = simp (free, large) refl;
        undone =
            let same_end : acc + real + (c.size - real) ≡ acc + c.size = ground arith in
            rw same_end (run_restored acc c cs v free co);
      }
      | inr whole ↦ record {
        size = c.size;
        front = [];
        back = cs;
        found = simp (free, large, whole) refl;
        offset = simp (free, large) refl;
        undone = run_restored acc c cs v free co;
      }
    ]
  ]
]

first_fit-length : (real : ℕ) (cs : List Chunk) → length (first_fit real cs) ≤ length cs + 1
unfolding first_fit
first_fit-length real [] = omega arith
first_fit-length real (c ∷ cs) = ground (arith, first_fit-length real cs)

module _ {S : Type 0} where
  free-restores :
      (fuel bytes : ℕ) (h : Heap S) (cs : List Chunk) (addr : ℕ) (h' : Heap S)
      → bytes < 2 ^ 31
      → IsHeap h cs
      → Served bytes h cs addr h'
      → length cs + 1 < fuel
      → Returns (free fuel addr h') (λ h''. IsHeap h'' cs × (h''.heap_start ≡ h.heap_start))
  free-restores fuel bytes h cs addr h' b v s f =
      let t =
        first_fit-Taken 0 (real_size bytes) cs (omega (arith, real_size_lem bytes b)) v.sized
          v.coalesced in
      let e : addr ≡ h'.heap_start + total t.front + header_size =
        omega (arith, s.address, s.start, t.offset) in
      let len : length (t.front ++ (chunk t.size true ∷ t.back)) < fuel =
        omega (arith, ap (length {A = Chunk}) t.found, first_fit-length (real_size bytes) cs) in
      rw e (
        Returns-map (free fuel (h'.heap_start + total t.front + header_size) h') _ _
          (free-Released fuel h' t.front (chunk t.size true) t.back
            (subst (IsHeap h') t.found s.heap) refl len)
          (λ h'' r. (subst (IsHeap h'') (t.undone ∙ flush_none cs) r.heap, r.start ∙ s.start)))
    where
      flush_none : (cs : List Chunk) → flush 0 cs ≡ cs
      flush_none cs = unfold flush in refl

  module _ (E : Type 0) (change : ℕ → ℕ → S → Outcome S)
      (steady : (old new : ℕ) (s : S) → Delivers E (change old new s) (λ _. Unit)) where
    -- From a well-formed heap, an allocation followed by the release of the block that it returned
    -- with fuel and room for it, ends with the same chunks in the heap. The first of the two stops the
    -- machine only if growing the heap does; the second returns.
    pub malloc-free :
        (fuel bytes : ℕ) (h : Heap S) (cs : List Chunk)
        → IsHeap h cs
        → length cs + 1 < fuel
        → total cs + bytes + 64 ≤ 2 ^ 31
        → h.heap_start + total cs + bytes + 64 ≤ 2 ^ 32
        → Delivers E (malloc change fuel bytes h) (λ r.
          Returns (free fuel r.0 r.1) (λ h''. IsHeap h'' cs × (h''.heap_start ≡ h.heap_start)))
    malloc-free fuel bytes h cs v f small32 small =
        Delivers-map _ (malloc change fuel bytes h) _ _
          (malloc-Served E change steady fuel bytes h cs v (omega arith) small32 small)
          (λ r s. free-restores fuel bytes h cs r.0 r.1 (omega arith) v s f)
