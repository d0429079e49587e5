-- ===== src/Malloc/Chunks.antt =====
-- The heap of kernel/kmalloc.c and userspace/api/src/malloc.c as the list of its chunks: what first
-- fit and the merge of free chunks do to such a list, and to the blocks that are in use.
use quad_os.Base.{
  ℕ, ◌+◌, ◌-◌, ◌%◌, ◌^◌, ◌≤◌, ◌<◌, ◌≡◌, refl, ap, Bool, true, false, not, ◌&&◌, List, [], ◌∷◌, ◌++◌,
  leb, ◌==◌, if◌then◌else◌, Bool-cases, inl, inr, All, arith,
}
use native.Mathlib.Nat.{add-zero, add_assoc}
use quad_os.Malloc.{Chunk}

abbrev pub chunk : ℕ → Bool → Chunk
chunk s u = record { size = s; used = u }

-- A size that the allocator makes: a multiple of 16, not 0, and no more than 31 bits.
pub record IsSized (c : Chunk) : Type 0 where
  pub nonzero : 0 < c.size
  pub aligned : c.size % 16 ≡ 0
  pub narrow : c.size < 2 ^ 31

unfoldable pub total : List Chunk → ℕ
total [] = 0
total (c ∷ cs) = c.size + total cs

-- First fit: the first free chunk of `real` bytes or more, split where the rest can hold a header;
-- a new chunk at the end if there is none.
unfoldable pub first_fit : ℕ → List Chunk → List Chunk
first_fit real [] = chunk real true ∷ []
first_fit real (c ∷ cs) =
    if not c.used && leb real c.size
    then (if leb 8 (c.size - real)
        then chunk real true ∷ (chunk (c.size - real) false ∷ cs)
        else chunk c.size true ∷ cs)
    else c ∷ first_fit real cs

-- The offset of the chunk that first fit takes.
unfoldable pub fit_offset : ℕ → List Chunk → ℕ
fit_offset real [] = 0
fit_offset real (c ∷ cs) = if not c.used && leb real c.size then 0 else c.size + fit_offset real cs

-- Adjacent free chunks become one, and free chunks at the end vanish. The number is the size of the
-- free chunks passed since the last used one.
unfoldable pub absorb : ℕ → List Chunk → List Chunk
absorb acc [] = []
absorb acc (c ∷ cs) =
    if c.used
    then (if acc == 0 then c ∷ absorb 0 cs else chunk acc false ∷ (c ∷ absorb 0 cs))
    else absorb (acc + c.size) cs

-- The blocks in use, as (address of the header, size).
unfoldable pub live : ℕ → List Chunk → List (ℕ × ℕ)
live pos [] = []
live pos (c ∷ cs) =
    if c.used then (pos, c.size) ∷ live (pos + c.size) cs else live (pos + c.size) cs

-- No free chunk stands before another free chunk or at the end.
unfoldable pub Coalesced : Bool → List Chunk → Type 0
Coalesced after_free [] = after_free ≡ false
Coalesced after_free (c ∷ cs) = ((after_free && not c.used) ≡ false) × Coalesced (not c.used) cs

-- Merging moves no block that is in use, and loses none.
pub live-absorb : (acc pos : ℕ) (cs : List Chunk) → live pos (absorb acc cs) ≡ live (pos + acc) cs
unfolding live absorb
live-absorb acc pos [] = refl
live-absorb acc pos (c ∷ cs) = elim (Bool-cases c.used) [
  | inl used ↦ ground (
    arith,
    live-absorb 0 (pos + c.size) cs,
    live-absorb 0 (pos + acc + c.size) cs,
    add-zero (pos + c.size),
    add-zero (pos + acc + c.size),
    add-zero pos,
  )
  | inr free ↦ ground (arith, live-absorb (acc + c.size) pos cs, add_assoc pos acc c.size)
]

-- Where first fit adds the block, and what stands before and behind it.
pub record Inserted (old new : List (ℕ × ℕ)) (pos real : ℕ) : Type 0 where
  pub size : ℕ
  pub before : List (ℕ × ℕ)
  pub behind : List (ℕ × ℕ)
  pub large : real ≤ size
  pub was : old ≡ before ++ behind
  pub became : new ≡ before ++ ((pos, size) ∷ behind)

-- First fit adds one block of `real` bytes or more, and leaves the blocks before and behind it.
pub live-first_fit :
    (real pos : ℕ) (cs : List Chunk)
    → Inserted (live pos cs) (live pos (first_fit real cs)) (pos + fit_offset real cs) real
unfolding live first_fit fit_offset
live-first_fit real pos [] = record {
  size = real;
  before = [];
  behind = [];
  large = omega arith;
  was = refl;
  became = ground (arith, add-zero pos);
}
live-first_fit real pos (c ∷ cs) =
    let ih = live-first_fit real (pos + c.size) cs in
    elim (Bool-cases c.used) [
      | inl used ↦ record {
        size = ih.size;
        before = (pos, c.size) ∷ ih.before;
        behind = ih.behind;
        large = ih.large;
        was = rw used (ap (λ l. (pos, c.size) ∷ l) ih.was);
        became = ground (arith, ih.became, add_assoc pos c.size (fit_offset real cs));
      }
      | inr free ↦ elim (Bool-cases (leb real c.size)) [
        | inr small ↦ record {
          size = ih.size;
          before = ih.before;
          behind = ih.behind;
          large = ih.large;
          was = rw free ih.was;
          became = ground (arith, ih.became, add_assoc pos c.size (fit_offset real cs));
        }
        | inl large ↦ elim (Bool-cases (leb 8 (c.size - real))) [
          | inl split ↦ record {
            size = real;
            before = [];
            behind = live (pos + c.size) cs;
            large = omega arith;
            was = rw free refl;
            became =
                let same_end : pos + real + (c.size - real) ≡ pos + c.size = ground arith in
                rw (free, large, split, same_end, add-zero) refl;
          }
          | inr whole ↦ record {
            size = c.size;
            before = [];
            behind = live (pos + c.size) cs;
            large = ground arith;
            was = rw free refl;
            became = rw (free, large, whole, add-zero) refl;
          }
        ]
      ]
    ]

pub absorb-Coalesced : (acc : ℕ) (cs : List Chunk) → Coalesced false (absorb acc cs)
unfolding Coalesced absorb
absorb-Coalesced acc [] = refl
absorb-Coalesced acc (c ∷ cs) = elim (Bool-cases c.used) [
  | inl used ↦ ground (arith, absorb-Coalesced 0 cs)
  | inr free ↦ rw free (absorb-Coalesced (acc + c.size) cs)
]

pub first_fit-total : (real : ℕ) (cs : List Chunk) → total (first_fit real cs) ≤ total cs + real
unfolding total first_fit
first_fit-total real [] = omega arith
first_fit-total real (c ∷ cs) = ground (arith, first_fit-total real cs)

-- The sizes stay multiples of 16 within 31 bits.
pub first_fit-IsSized :
    (real : ℕ) (cs : List Chunk)
    → IsSized (chunk real true)
    → All IsSized cs
    → All IsSized (first_fit real cs)
unfolding first_fit
first_fit-IsSized real [] r v = (r, tt)
first_fit-IsSized real (c ∷ cs) r v =
    ground (arith, first_fit-IsSized real cs r v.1, r.aligned, r.nonzero, r.narrow, v.0.aligned)

Coalesced-weaken : (cs : List Chunk) → Coalesced true cs → Coalesced false cs
unfolding Coalesced
Coalesced-weaken [] v = refl
Coalesced-weaken (c ∷ cs) v = (refl, v.1)

-- First fit leaves no two free chunks side by side, and none at the end.
pub first_fit-Coalesced :
    (b : Bool) (real : ℕ) (cs : List Chunk) → Coalesced b cs → Coalesced b (first_fit real cs)
unfolding Coalesced first_fit
first_fit-Coalesced b real [] v = ground arith
first_fit-Coalesced b real (c ∷ cs) v = elim (Bool-cases (not c.used && leb real c.size)) [
  | inr no_fit ↦ rw no_fit (v.0, first_fit-Coalesced (not c.used) real cs v.1)
  | inl fit ↦
      let free : c.used ≡ false = ground arith in
      let behind = rw free at v.1 in
      elim (Bool-cases (leb 8 (c.size - real))) [
        | inl split ↦ rw (fit, split) (not_used b, (refl, behind))
        | inr whole ↦ rw (fit, whole) (not_used b, Coalesced-weaken cs behind)
      ]
]
  where
    not_used : (b : Bool) → (b && false) ≡ false
    not_used b = ground arith

-- Where the first chunk fits, it is the one that is taken.
pub first_fit_here :
    (real : ℕ) (c : Chunk) (cs : List Chunk)
    → c.used ≡ false
    → real ≤ c.size
    → (fit_offset real (c ∷ cs) ≡ 0) × (total (first_fit real (c ∷ cs)) ≡ c.size + total cs)
unfolding first_fit fit_offset total
first_fit_here real c cs free large = (ground arith, ground arith)

-- Where it does not, the search goes on behind it.
pub first_fit_later :
    (real : ℕ) (c : Chunk) (cs : List Chunk)
    → (not c.used && leb real c.size) ≡ false
    → (fit_offset real (c ∷ cs) ≡ c.size + fit_offset real cs)
      × (first_fit real (c ∷ cs) ≡ c ∷ first_fit real cs)
unfolding first_fit fit_offset
first_fit_later real c cs no_fit = (rw no_fit refl, rw no_fit refl)
