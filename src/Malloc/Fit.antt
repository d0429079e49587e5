-- ===== src/Malloc/Fit.antt =====
-- The allocation loop of kernel/kmalloc.c and userspace/api/src/malloc.c against first fit on the
-- list of chunks.
use quad_os.Base.{
  ℕ, zero, suc, ◌+◌, ◌^◌, ◌≤◌, ◌<◌, ◌≡◌, refl, ap, ◌∙◌, true, false, not, ◌&&◌, List, [], ◌∷◌, leb,
  ltb, Bool-cases, inl, inr, All, length, add32, sub32, Outcome, Delivers, Delivers-bind,
  Delivers-map, arith,
}
use quad_os.Malloc.{Chunk, Heap, Headers, header_size, fits, place, ensure_room, fit_from}
use quad_os.Malloc.Chunks.{
  chunk, IsSized, total, first_fit, fit_offset, first_fit_here, first_fit_later,
}
use quad_os.Malloc.Layout.{Layout, Layout-agree, claim_below, claim_end, claim_fit}

-- The stop chunk fits, and a chunk of the heap fits if it is free and large enough.
fits_stop : (real : ℕ) → fits real (chunk 0 false) ≡ true
fits_stop real = ground arith

fits-fit : (real : ℕ) (c : Chunk) → IsSized c → fits real c ≡ (not c.used && leb real c.size)
fits-fit real c s = ground (arith, s.nonzero)

module _ {S : Type 0} where
  -- Every address of the heap fits 32 bits.
  abbrev pub top : Heap S → ℕ
  top h = h.heap_start + h.heap_size

-- `Backed start size s` is what is known of the pages `s` under a heap of this start and size.
module _ {S : Type 0} (Backed : ℕ → ℕ → S → Type 0) where
  abbrev HasPages : Heap S → Type 0
  HasPages h = Backed h.heap_start h.heap_size h.pages

  -- What `ensure_room` may change, and what it achieves.
  pub record Roomy (need : ℕ) (h h' : Heap S) : Type 0 where
    pub headers : h'.headers ≡ h.headers
    pub start : h'.heap_start ≡ h.heap_start
    pub grown : top h ≤ top h'
    pub enough : need ≤ top h'
    pub narrow : top h' < 2 ^ 32
    pub backed : HasPages h'

  -- What a search from the chunk `pos` on has done.
  pub record Fitted (real pos : ℕ) (h : Heap S) (cs : List Chunk) (addr : ℕ) (h' : Heap S)
      : Type 0 where
    pub address : addr ≡ pos + fit_offset real cs + header_size
    pub layout : Layout h'.headers pos (first_fit real cs)
    pub below : (a : ℕ) → a < pos → h'.headers a ≡ h.headers a
    pub start : h'.heap_start ≡ h.heap_start
    pub room : pos + total (first_fit real cs) + header_size ≤ top h'
    pub narrow : top h' < 2 ^ 32
    pub backed : HasPages h'

  place-Fitted_end :
      (real pos : ℕ) (h h' : Heap S)
      → IsSized (chunk real true)
      → Roomy (pos + real + header_size) h h'
      → Layout h.headers pos []
      → Fitted real pos h [] (place real pos h').0 (place real pos h').1
  unfolding place Layout first_fit fit_offset total
  place-Fitted_end real pos h h' r roomy l = record {
    address = omega (arith, roomy.enough, roomy.narrow);
    layout =
        claim_end real pos h'.headers r (omega (arith, roomy.enough, roomy.narrow))
          (rw (roomy.headers) l);
    below = λ a lt.
        claim_below real pos a h'.headers lt (omega (arith, roomy.enough, roomy.narrow))
        ∙ ap (λ (m : Headers). m a) roomy.headers;
    start = roomy.start;
    room = omega (arith, roomy.enough);
    narrow = roomy.narrow;
    backed = roomy.backed;
  }

  place-Fitted :
      (real pos : ℕ) (h h' : Heap S) (c : Chunk) (cs : List Chunk)
      → IsSized (chunk real true)
      → IsSized c
      → Roomy (pos + real + header_size) h h'
      → pos + total (c ∷ cs) + header_size ≤ top h
      → c.used ≡ false
      → real ≤ c.size
      → Layout h.headers pos (c ∷ cs)
      → Fitted real pos h (c ∷ cs) (place real pos h').0 (place real pos h').1
  unfolding place total
  place-Fitted real pos h h' c cs r s roomy room free large l = record {
    address = omega (arith, roomy.enough, roomy.narrow, first_fit_here real c cs free large);
    layout =
        claim_fit real pos h'.headers c cs r s (omega (arith, roomy.grown, roomy.narrow, room)) free
          large
          (Layout-agree h.headers h'.headers pos (c ∷ cs)
            (λ a _. ap (λ (m : Headers). m a) roomy.headers) l);
    below = λ a lt.
        claim_below real pos a h'.headers lt (omega (arith, roomy.enough, roomy.narrow))
        ∙ ap (λ (m : Headers). m a) roomy.headers;
    start = roomy.start;
    room = omega (arith, room, roomy.grown, first_fit_here real c cs free large);
    narrow = roomy.narrow;
    backed = roomy.backed;
  }

  module _ (E : Type 0) (change : ℕ → ℕ → S → Outcome S)
      (grows : (start old new : ℕ) (s : S)
        → old < new
        → start + new < 2 ^ 32
        → Backed start old s
        → Delivers E (change old new s) (Backed start new)) where
    ensure_room-Roomy :
        (real pos : ℕ) (h : Heap S)
        → h.heap_start ≤ pos
        → top h < 2 ^ 32
        → pos + real + header_size < 2 ^ 32
        → HasPages h
        → Delivers E (ensure_room change real pos h) (Roomy (pos + real + header_size) h)
    unfolding ensure_room
    ensure_room-Roomy real pos h lo narrow small backed =
        elim (Bool-cases
          (ltb (add32 h.heap_start h.heap_size) (add32 (add32 pos real) header_size))) [
            | inl grow ↦ rw grow (
                Delivers-bind _
                  (change h.heap_size (sub32 (add32 (add32 pos real) header_size) h.heap_start)
                    h.pages)
                  _ (Backed h.heap_start (sub32 (add32 (add32 pos real) header_size) h.heap_start))
                  _ (grows h.heap_start _ _ _ (ground arith) (ground arith) backed)
                  (λ s b. record {
                    headers = refl;
                    start = refl;
                    grown = ground arith;
                    enough = ground arith;
                    narrow = ground arith;
                    backed = b;
                  }))
            | inr enough ↦ rw enough (record {
              headers = refl;
              start = refl;
              grown = omega arith;
              enough = ground arith;
              narrow = narrow;
              backed = backed;
            })
          ]

    -- Behind a chunk that does not fit: the chunk is in front of what the search has done.
    Fitted-cons :
        (real pos : ℕ) (h h' : Heap S) (c : Chunk) (cs : List Chunk) (addr : ℕ) (h'' : Heap S)
        → IsSized c
        → Roomy (pos + real + header_size) h h'
        → Layout h.headers pos (c ∷ cs)
        → (not c.used && leb real c.size) ≡ false
        → Fitted real (pos + c.size) h' cs addr h''
        → Fitted real pos h (c ∷ cs) addr h''
    unfolding total Layout
    Fitted-cons real pos h h' c cs addr h'' s roomy l no_fit f =
        let later = first_fit_later real c cs no_fit in
        record {
          address = omega (arith, later.0, f.address);
          layout = rw later.1 (
            f.below pos (omega (arith, s.nonzero))
                ∙ ap (λ (m : Headers). m pos) roomy.headers
                ∙ l.0,
            f.layout,
          );
          below = λ a lt. f.below a (omega arith) ∙ ap (λ (m : Headers). m a) roomy.headers;
          start = f.start ∙ roomy.start;
          room = rw later.1 (omega (arith, f.room));
          narrow = f.narrow;
          backed = f.backed;
        }

    -- With more fuel than there are chunks, the loop does first fit on them.
    pub fit_from-Fitted :
        (fuel real pos : ℕ) (h : Heap S) (cs : List Chunk)
        → length cs < fuel
        → IsSized (chunk real true)
        → All IsSized cs
        → h.heap_start ≤ pos
        → top h < 2 ^ 32
        → pos + total cs + real + header_size < 2 ^ 32
        → pos + total cs + header_size ≤ top h
        → Layout h.headers pos cs
        → HasPages h
        → Delivers E (fit_from change fuel real pos h) (λ r. Fitted real pos h cs r.0 r.1)
    unfolding fit_from Layout total
    fit_from-Fitted zero real pos h cs f r v lo narrow small room l b = absurd (omega arith)
    fit_from-Fitted (suc fuel) real pos h [] f r v lo narrow small room l b =
        Delivers-bind _ (ensure_room change real pos h) _ _ _
          (ensure_room-Roomy real pos h lo narrow (omega arith) b)
          (λ h' roomy.
            let e : h'.headers pos ≡ chunk 0 false =
              ap (λ (m : Headers). m pos) roomy.headers ∙ l in
            rw (e, fits_stop real) (place-Fitted_end real pos h h' r roomy l))
    fit_from-Fitted (suc fuel) real pos h (c ∷ cs) f r v lo narrow small room l b =
        Delivers-bind _ (ensure_room change real pos h) _ _ _
          (ensure_room-Roomy real pos h lo narrow (omega arith) b)
          (λ h' roomy.
            let e : h'.headers pos ≡ c = ap (λ (m : Headers). m pos) roomy.headers ∙ l.0 in
            let next : add32 pos c.size ≡ pos + c.size = omega arith in
            rw e (elim (Bool-cases (not c.used && leb real c.size)) [
              | inl fit ↦
                  rw (fits-fit real c v.0 ∙ fit) (
                    place-Fitted real pos h h' c cs r v.0 roomy room (ground arith) (ground arith)
                      l)
              | inr no_fit ↦
                  rw (fits-fit real c v.0 ∙ no_fit, next)
                    (Delivers-map _ (fit_from change fuel real (pos + c.size) h') _ _
                      (fit_from-Fitted fuel real (pos + c.size) h' cs (omega arith) r v.1
                        (omega (arith, roomy.start)) roomy.narrow (omega arith)
                        (omega (arith, roomy.grown))
                        (Layout-agree h.headers h'.headers (pos + c.size) cs
                          (λ a _. ap (λ (m : Headers). m a) roomy.headers) l.1)
                        roomy.backed)
                      (λ res done.
                        Fitted-cons real pos h h' c cs res.0 res.1 v.0 roomy l no_fit done))
            ]))
