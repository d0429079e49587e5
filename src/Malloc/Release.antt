-- ===== src/Malloc/Release.antt =====
-- What `kfree` and `user_free` promise: the block is given back, every other block in use stays,
-- and the heap is well formed again. Freeing what was just allocated restores the chunks.
use quad_os.Base.{
  ℕ, ◌+◌, ◌-◌, ◌%◌, ◌^◌, ◌≤◌, ◌<◌, ◌≡◌, refl, ap, ◌∙◌, true, false, List, [], ◌∷◌, ◌++◌, All,
  length, length-append, u32_mod, Returns, Returns-map, arith,
}
use native.Mathlib.Nat.{add-zero, add_assoc}
use quad_os.Malloc.{Chunk, Headers, Heap, header_size, write_used, merge_free_chunks, free}
use quad_os.Malloc.Chunks.{chunk, IsSized, total, absorb, live, live-absorb, absorb-Coalesced}
use quad_os.Malloc.Layout.{Layout, Layout-agree}
use quad_os.Malloc.Free.{merge_from-Merged}
use quad_os.Malloc.Serve.{IsHeap}

live-append :
    (pos : ℕ) (xs ys : List Chunk) → live pos (xs ++ ys) ≡ live pos xs ++ live (pos + total xs) ys
unfolding live total
live-append pos [] ys = rw add-zero refl
live-append pos (x ∷ xs) ys =
    ground (arith, live-append (pos + x.size) xs ys, add_assoc pos x.size (total xs))

total-append : (xs ys : List Chunk) → total (xs ++ ys) ≡ total xs + total ys
unfolding total
total-append [] ys = omega arith
total-append (x ∷ xs) ys = omega (arith, total-append xs ys)

All-append : (xs ys : List Chunk) → All IsSized (xs ++ ys) → All IsSized xs × All IsSized ys
All-append [] ys v = (tt, v)
All-append (x ∷ xs) ys v = ((v.0, (All-append xs ys v.1).0), (All-append xs ys v.1).1)

All-append_of : (xs ys : List Chunk) → All IsSized xs → All IsSized ys → All IsSized (xs ++ ys)
All-append_of [] ys v w = w
All-append_of (x ∷ xs) ys v w = (v.0, All-append_of xs ys v.1 w)

absorb-total : (acc : ℕ) (cs : List Chunk) → total (absorb acc cs) ≤ acc + total cs
unfolding absorb total
absorb-total acc [] = omega arith
absorb-total acc (c ∷ cs) = ground (arith, absorb-total 0 cs, absorb-total (acc + c.size) cs)

absorb-IsSized :
    (acc : ℕ) (cs : List Chunk)
    → acc % 16 ≡ 0
    → acc + total cs < 2 ^ 31
    → All IsSized cs
    → All IsSized (absorb acc cs)
unfolding absorb total
absorb-IsSized acc [] a small v = tt
absorb-IsSized acc (c ∷ cs) a small v = ground (
  arith,
  absorb-IsSized 0 cs refl (omega arith) v.1,
  absorb-IsSized (acc + c.size) cs (omega (arith, v.0.aligned)) (omega arith) v.1,
  v.0.aligned,
)

-- Clearing the `used` bit of one chunk.
Layout-release :
    (m : Headers) (pos : ℕ) (xs : List Chunk) (c : Chunk) (ys : List Chunk) (at : ℕ)
    → at ≡ pos + total xs
    → All IsSized xs
    → 0 < c.size
    → Layout m pos (xs ++ (c ∷ ys))
    → Layout (write_used m at false) pos (xs ++ (chunk c.size false ∷ ys))
unfolding Layout total
Layout-release m pos [] c ys at e v s l = (
  ground (arith, l.0),
  Layout-agree m (write_used m at false) (pos + c.size) ys (λ a far. ground arith) l.1,
)
Layout-release m pos (x ∷ xs) c ys at e v s l = (
  ground (arith, l.0, v.0.nonzero),
  Layout-release m (pos + x.size) xs c ys at (omega arith) v.1 s l.1,
)

Layout-at :
    (m : Headers) (pos : ℕ) (xs : List Chunk) (c : Chunk) (ys : List Chunk)
    → Layout m pos (xs ++ (c ∷ ys))
    → m (pos + total xs) ≡ c
unfolding Layout total
Layout-at m pos [] c ys l = rw add-zero l.0
Layout-at m pos (x ∷ xs) c ys l =
    rw (← add_assoc pos x.size (total xs)) (Layout-at m (pos + x.size) xs c ys l.1)

live_used :
    (pos : ℕ) (xs : List Chunk) (c : Chunk) (ys : List Chunk)
    → c.used ≡ true
    → live pos xs ++ live (pos + total xs) (c ∷ ys)
      ≡ live pos xs ++ ((pos + total xs, c.size) ∷ live (pos + total xs + c.size) ys)
unfolding live
live_used pos xs c ys used = simp used refl

live_free :
    (pos : ℕ) (xs : List Chunk) (s : ℕ) (ys : List Chunk)
    → live pos xs ++ live (pos + total xs) (chunk s false ∷ ys)
      ≡ live pos xs ++ live (pos + total xs + s) ys
unfolding live
live_free pos xs s ys = refl

-- The abstract view of one release: the block is gone from those in use, and no other is.
pub record Released {S : Type 0} (h : Heap S) (xs : List Chunk) (c : Chunk) (ys : List Chunk)
    (h' : Heap S) : Type 0 where
  pub start : h'.heap_start ≡ h.heap_start
  pub size : h'.heap_size ≡ h.heap_size
  pub heap : IsHeap h' (absorb 0 (xs ++ (chunk c.size false ∷ ys)))
  pub before : List (ℕ × ℕ)
  pub behind : List (ℕ × ℕ)
  pub was :
      live h.heap_start (xs ++ (c ∷ ys)) ≡ before ++ ((h.heap_start + total xs, c.size) ∷ behind)
  pub became : live h.heap_start (absorb 0 (xs ++ (chunk c.size false ∷ ys))) ≡ before ++ behind

module _ {S : Type 0} where
  -- From a well-formed heap, freeing a block in use returns, gives that block back and no other, and
  -- leaves the heap well formed, with no two free chunks side by side and none at the end.
  pub free-Released :
      (fuel : ℕ) (h : Heap S) (xs : List Chunk) (c : Chunk) (ys : List Chunk)
      → IsHeap h (xs ++ (c ∷ ys))
      → c.used ≡ true
      → length (xs ++ (c ∷ ys)) < fuel
      → Returns (free fuel (h.heap_start + total xs + header_size) h) (Released h xs c ys)
  unfolding free total
  free-Released fuel h xs c ys v used f =
      let parts = All-append xs (c ∷ ys) v.sized in
      let sum = total-append xs (c ∷ ys) in
      let sum' = total-append xs (chunk c.size false ∷ ys) in
      let here : (h.heap_start + total xs + header_size + u32_mod - header_size) % u32_mod
          ≡ h.heap_start + total xs =
        omega (arith, v.room, v.narrow, sum) in
      let is_used : (h.headers (h.heap_start + total xs)).used ≡ true =
        ap (λ (t : Chunk). t.used) (Layout-at h.headers h.heap_start xs c ys v.layout) ∙ used in
      let h' : Heap S = record h {
        headers = write_used h.headers (h.heap_start + total xs) false;
      } in
      let sized : All IsSized (xs ++ (chunk c.size false ∷ ys)) =
        All-append_of xs (chunk c.size false ∷ ys) parts.0 (omega (arith, parts.1.0), parts.1.1) in
      let merged =
        merge_from-Merged fuel h.heap_start h' (xs ++ (chunk c.size false ∷ ys))
          (omega
            (arith, length-append {0} xs (chunk c.size false ∷ ys), length-append {0} xs (c ∷ ys)))
          sized (omega (arith, sum, sum', v.small)) (omega (arith, sum, sum', v.room)) v.narrow
          (Layout-release h.headers h.heap_start xs c ys _ refl parts.0 parts.1.0.nonzero
            v.layout) in
      rw (here, is_used)
        (Returns-map (merge_free_chunks fuel h') _ _ merged (λ h'' m. record {
          start = m.start;
          size = m.size;
          heap = record {
            layout = rw m.start m.layout;
            sized =
                absorb-IsSized 0 (xs ++ (chunk c.size false ∷ ys)) refl
                  (omega (arith, sum, sum', v.small)) sized;
            coalesced = absorb-Coalesced 0 (xs ++ (chunk c.size false ∷ ys));
            room = omega (
              arith,
              m.start,
              m.size,
              v.room,
              sum,
              sum',
              absorb-total 0 (xs ++ (chunk c.size false ∷ ys)),
            );
            narrow = omega (arith, m.start, m.size, v.narrow);
            small =
                omega (arith, v.small, sum, sum', absorb-total 0 (xs ++ (chunk c.size false ∷ ys)));
            aligned = rw m.start v.aligned;
          };
          before = live h.heap_start xs;
          behind = live (h.heap_start + total xs + c.size) ys;
          was = live-append h.heap_start xs (c ∷ ys) ∙ live_used h.heap_start xs c ys used;
          became =
              live-absorb 0 h.heap_start (xs ++ (chunk c.size false ∷ ys))
              ∙ rw add-zero (live-append h.heap_start xs (chunk c.size false ∷ ys))
              ∙ live_free h.heap_start xs c.size ys;
        }))
