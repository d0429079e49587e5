-- ===== src/Malloc/Free.antt =====
-- `merge_free_chunks` of kernel/kmalloc.c and userspace/api/src/malloc.c against the merge of a
-- list of chunks.
use quad_os.Base.{
  ℕ, zero, suc, ◌+◌, ◌%◌, ◌^◌, ◌≤◌, ◌<◌, ◌≡◌, ◌≢◌, refl, ap, ◌∙◌, Bool, true, false, List, [], ◌∷◌,
  leb, ◌==◌, if◌then◌else◌, Bool-cases, inl, inr, All, length, u32_mod, Option, none, some, Outcome,
  ok, Returns, Returns-bind, Returns-map, arith,
}
use native.Mathlib.Nat.{add_assoc, zero-add}
use quad_os.Malloc.{Chunk, Heap, Headers, header_size, write_size, swallow, onward, merge_from}
use quad_os.Malloc.Chunks.{chunk, IsSized, total, absorb}
use quad_os.Malloc.Layout.{Layout, Layout-agree}
use quad_os.Malloc.Fit.{top}

-- The size of the free run that begins with `acc` bytes, and the chunks behind it; nothing if the
-- run reaches the end of the heap.
unfoldable pub run : ℕ → List Chunk → Option (ℕ × List Chunk)
run acc [] = none
run acc (c ∷ cs) = if c.used then some (acc, c ∷ cs) else run (acc + c.size) cs

absorb-run :
    (acc : ℕ) (cs : List Chunk)
    → 0 < acc
    → absorb acc cs
      ≡ elim (run acc cs) [ none ↦ [] | some (a, rest) ↦ chunk a false ∷ absorb 0 rest ]
unfolding run absorb
absorb-run acc [] nonzero = refl
absorb-run acc (c ∷ cs) nonzero = elim (Bool-cases c.used) [
  | inl used ↦ ground arith
  | inr free ↦ rw free (absorb-run (acc + c.size) cs (omega arith))
]

absorb-free :
    (c : Chunk) (cs : List Chunk)
    → c.used ≡ false
    → 0 < c.size
    → absorb 0 (c ∷ cs)
      ≡ elim (run c.size cs) [ none ↦ [] | some (a, rest) ↦ chunk a false ∷ absorb 0 rest ]
absorb-free c cs free nonzero = absorb_zero c cs free ∙ absorb-run c.size cs nonzero
  where
    absorb_zero :
        (c : Chunk) (cs : List Chunk) → c.used ≡ false → absorb 0 (c ∷ cs) ≡ absorb c.size cs
    absorb_zero c cs free = unfold absorb in simp (free, zero-add) refl

-- What `swallow` leaves at the free chunk `pos`.
Swallowed : Headers → ℕ → ℕ → List Chunk → Bool → Option (ℕ × List Chunk) → Type 0
Swallowed m pos acc cs ended none = (ended ≡ true) × (m pos ≡ chunk 0 false)
Swallowed m pos acc cs ended (some (a, rest)) =
    (ended ≡ false)
    × (m pos ≡ chunk a false)
    × Layout m (pos + a) rest
    × (length rest ≤ length cs)
    × (a + total rest ≡ acc + total cs)
    × (0 < a)
    × All IsSized rest

module _ {S : Type 0} where
  record SwallowSpec (pos acc : ℕ) (cs : List Chunk) (h : Heap S) (r : Bool × Heap S) : Type 0 where
    result : Swallowed r.1.headers pos acc cs r.0 (run acc cs)
    others : (a : ℕ) → a ≢ pos → r.1.headers a ≡ h.headers a
    start : r.1.heap_start ≡ h.heap_start
    size : r.1.heap_size ≡ h.heap_size

  stopped :
      (pos acc : ℕ) (h : Heap S) (c : Chunk) (cs : List Chunk)
      → c.used ≡ true
      → 0 < acc
      → All IsSized (c ∷ cs)
      → h.headers pos ≡ chunk acc false
      → Layout h.headers (pos + acc) (c ∷ cs)
      → SwallowSpec pos acc (c ∷ cs) h (false, h)
  unfolding run Swallowed
  stopped pos acc h c cs used nonzero v e l = record {
    result = simp used (refl, e, l, omega arith, refl, nonzero, v);
    others = λ a ne. refl;
    start = refl;
    size = refl;
  }

  later :
      (pos acc : ℕ) (h : Heap S) (c : Chunk) (cs : List Chunk)
      → c.used ≡ false
      → (r : Bool × Heap S)
      → SwallowSpec pos
          (acc + c.size)
          cs
          (record h { headers = write_size h.headers pos ((h.headers pos).size + c.size) })
          r
      → SwallowSpec pos acc (c ∷ cs) h r
  unfolding run Swallowed total
  later pos acc h c cs free r done = record {
    result = rw free (widen (run (acc + c.size) cs) done.result);
    others = λ a ne. ground (arith, done.others a);
    start = done.start;
    size = done.size;
  }
    where
      widen :
          (o : Option (ℕ × List Chunk))
          → Swallowed r.1.headers pos (acc + c.size) cs r.0 o
          → Swallowed r.1.headers pos acc (c ∷ cs) r.0 o
      widen none s = s
      widen (some (a, rest)) s = (s.0, s.1, s.2, omega (arith, s.3), omega (arith, s.4), s.5, s.6)

  swallow_lem :
      (fuel pos acc : ℕ) (h : Heap S) (cs : List Chunk)
      → length cs < fuel
      → 0 < acc
      → All IsSized cs
      → acc + total cs < 2 ^ 31
      → pos + acc + total cs < 2 ^ 32
      → h.headers pos ≡ chunk acc false
      → Layout h.headers (pos + acc) cs
      → Returns (swallow fuel pos (pos + acc) h) (SwallowSpec pos acc cs h)
  unfolding swallow Layout Swallowed run total
  swallow_lem zero pos acc h cs f nonzero v narrow small e l = absurd (omega arith)
  swallow_lem (suc fuel) pos acc h [] f nonzero v narrow small e l = rw l (record {
    result = (refl, ground arith);
    others = λ a ne. ground arith;
    start = refl;
    size = refl;
  })
  swallow_lem (suc fuel) pos acc h (c ∷ cs) f nonzero v narrow small e l =
      let h' : Heap S = record h {
        headers = write_size h.headers pos ((h.headers pos).size + c.size);
      } in
      rw l.0 (elim (Bool-cases c.used) [
        | inl used ↦ simp used (stopped pos acc h c cs used nonzero v e l)
        | inr free ↦
            let not_stop : (c.size == 0) ≡ false = ground (arith, v.0.nonzero) in
            let next : (pos + acc + c.size) % u32_mod ≡ pos + (acc + c.size) = omega arith in
            let behind : Layout h'.headers (pos + (acc + c.size)) cs =
              rw (← add_assoc pos acc c.size) (
                Layout-agree h.headers h'.headers (pos + acc + c.size) cs
                  (λ a far. ground (arith, v.0.nonzero)) l.1) in
            simp (free, not_stop, next)
              (Returns-map (swallow fuel pos (pos + (acc + c.size)) h') _ _
                (swallow_lem fuel pos (acc + c.size) h' cs (omega arith) (omega arith) v.1
                  (omega arith) (omega arith) (ground (arith, e)) behind)
                (λ r done. later pos acc h c cs free r done))
      ])

  -- What the merge has done from `pos` on.
  pub record Merged (pos : ℕ) (cs : List Chunk) (h h' : Heap S) : Type 0 where
    pub layout : Layout h'.headers pos (absorb 0 cs)
    pub below : (a : ℕ) → a < pos → h'.headers a ≡ h.headers a
    pub start : h'.heap_start ≡ h.heap_start
    pub size : h'.heap_size ≡ h.heap_size

  -- While the next chunk is in the heap, the next round is made.
  onward_lem :
      (go : ℕ → Heap S → Outcome (Heap S)) (pos : ℕ) (h : Heap S) (c : Chunk)
      → h.headers pos ≡ c
      → pos + c.size + header_size ≤ top h
      → top h < 2 ^ 32
      → onward go pos h ≡ go (pos + c.size) h
  unfolding onward
  onward_lem go pos h c e room narrow =
      let next : (pos + c.size) % u32_mod ≡ pos + c.size = omega arith in
      let inside : leb ((h.heap_start + h.heap_size) % u32_mod) (pos + c.size) ≡ false =
        ground arith in
      rw (e, next, inside)

  -- A used chunk stays in front of what the later rounds do.
  Merged-cons :
      (pos : ℕ) (c : Chunk) (cs : List Chunk) (h h' : Heap S)
      → c.used ≡ true
      → 0 < c.size
      → h.headers pos ≡ c
      → Merged (pos + c.size) cs h h'
      → Merged pos (c ∷ cs) h h'
  unfolding absorb Layout
  Merged-cons pos c cs h h' used nonzero e m = record {
    layout = simp used (m.below pos (omega arith) ∙ e, m.layout);
    below = λ a lt. m.below a (omega arith);
    start = m.start;
    size = m.size;
  }

  -- A free run that ends at a used chunk becomes one chunk in front of the later rounds.
  Merged-run :
      (pos : ℕ) (c : Chunk) (cs : List Chunk) (a : ℕ) (rest : List Chunk) (h h₁ h' : Heap S)
      → c.used ≡ false
      → 0 < c.size
      → 0 < a
      → run c.size cs ≡ some (a, rest)
      → h₁.headers pos ≡ chunk a false
      → ((x : ℕ) → x ≢ pos → h₁.headers x ≡ h.headers x)
      → (h₁.heap_start ≡ h.heap_start) × (h₁.heap_size ≡ h.heap_size)
      → Merged (pos + a) rest h₁ h'
      → Merged pos (c ∷ cs) h h'
  unfolding Layout
  Merged-run pos c cs a rest h h₁ h' free nonzero some_a is_run e others same m = record {
    layout = rw (absorb-free c cs free nonzero, is_run) (m.below pos (omega arith) ∙ e, m.layout);
    below = λ x lt. m.below x (omega arith) ∙ others x (omega arith);
    start = m.start ∙ same.0;
    size = m.size ∙ same.1;
  }

  Merged-end :
      (pos : ℕ) (c : Chunk) (cs : List Chunk) (h h₁ : Heap S)
      → c.used ≡ false
      → 0 < c.size
      → run c.size cs ≡ none
      → h₁.headers pos ≡ chunk 0 false
      → ((x : ℕ) → x ≢ pos → h₁.headers x ≡ h.headers x)
      → (h₁.heap_start ≡ h.heap_start) × (h₁.heap_size ≡ h.heap_size)
      → Merged pos (c ∷ cs) h h₁
  unfolding Layout
  Merged-end pos c cs h h₁ free nonzero is_run e others same = record {
    layout = rw (absorb-free c cs free nonzero, is_run) e;
    below = λ x lt. others x (omega arith);
    start = same.0;
    size = same.1;
  }

  -- The rest of a round after `swallow`, given what the later rounds do.
  resume :
      (go : ℕ → Heap S → Outcome (Heap S)) (pos : ℕ) (h : Heap S) (c : Chunk) (cs : List Chunk)
      → 0 < c.size
      → c.used ≡ false
      → pos + c.size + total cs + header_size ≤ top h
      → top h < 2 ^ 32
      → (r : Bool × Heap S) → SwallowSpec pos c.size cs h r
      → ((a : ℕ) (rest : List Chunk)
          → length rest ≤ length cs
          → All IsSized rest
          → a + total rest ≡ c.size + total cs
          → pos + a + total rest + header_size ≤ top r.1
          → top r.1 < 2 ^ 32
          → Layout r.1.headers (pos + a) rest
          → Returns (go (pos + a) r.1) (Merged (pos + a) rest r.1))
      → Returns (if r.0 then ok r.1 else onward go pos r.1) (Merged pos (c ∷ cs) h)
  unfolding Swallowed
  resume go pos h c cs nonzero free room narrow r done next =
      by_run (run c.size cs) refl done.result
    where
      by_run :
          (o : Option (ℕ × List Chunk))
          → run c.size cs ≡ o
          → Swallowed r.1.headers pos c.size cs r.0 o
          → Returns (if r.0 then ok r.1 else onward go pos r.1) (Merged pos (c ∷ cs) h)
      by_run none is_run s =
          simp (s.0)
            (Merged-end pos c cs h r.1 free nonzero is_run s.1 done.others (done.start, done.size))
      by_run (some (a, rest)) is_run s =
          simp
            (
              s.0,
              onward_lem go pos r.1 (chunk a false) s.1 (omega (arith, done.start, done.size))
                  (omega (arith, done.start, done.size)),
            )
            (Returns-map (go (pos + a) r.1) _ _
              (next a rest s.3 s.6 s.4 (omega (arith, done.start, done.size))
                (omega (arith, done.start, done.size)) s.2)
              (λ h' m.
                Merged-run pos c cs a rest h r.1 h' free nonzero s.5 is_run s.1 done.others
                  (done.start, done.size) m))

  -- With more fuel than there are chunks, the merge does `absorb` on them.
  pub merge_from-Merged :
      (fuel pos : ℕ) (h : Heap S) (cs : List Chunk)
      → length cs < fuel
      → All IsSized cs
      → total cs < 2 ^ 31
      → pos + total cs + header_size ≤ top h
      → top h < 2 ^ 32
      → Layout h.headers pos cs
      → Returns (merge_from fuel pos h) (Merged pos cs h)
  unfolding merge_from Layout total absorb
  merge_from-Merged zero pos h cs f v small room narrow l = absurd (omega arith)
  merge_from-Merged (suc fuel) pos h [] f v small room narrow l =
      rw l (record { layout = l; below = λ a lt. refl; start = refl; size = refl })
  merge_from-Merged (suc fuel) pos h (c ∷ cs) f v small room narrow l =
      let not_stop : (c.size == 0) ≡ false = ground (arith, v.0.nonzero) in
      let next : (pos + c.size) % u32_mod ≡ pos + c.size = omega arith in
      elim (Bool-cases c.used) [
        | inl used ↦
            rw (l.0, not_stop)
              (simp (used, onward_lem (merge_from fuel) pos h c l.0 (omega arith) narrow)
                (Returns-map (merge_from fuel (pos + c.size) h) _ _
                  (merge_from-Merged fuel (pos + c.size) h cs (omega arith) v.1 (omega arith)
                    (omega arith) narrow l.1)
                  (λ h' m. Merged-cons pos c cs h h' used v.0.nonzero l.0 m)))
        | inr free ↦
            rw (l.0, not_stop)
              (simp (free, next)
                (Returns-bind (swallow fuel pos (pos + c.size) h) _ _ _
                  (swallow_lem fuel pos c.size h cs (omega arith) v.0.nonzero v.1 (omega arith)
                    (omega arith) (l.0 ∙ ap (chunk c.size) free) l.1)
                  (λ r done.
                    resume (merge_from fuel) pos h c cs v.0.nonzero free (omega arith) narrow r done
                      (λ a rest len siz sum room' narrow' lay.
                        merge_from-Merged fuel (pos + a) r.1 rest (omega arith) siz (omega arith)
                          room' narrow' lay))))
      ]
