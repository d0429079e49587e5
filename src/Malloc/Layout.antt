-- ===== src/Malloc/Layout.antt =====
-- The headers in memory, read as the list of the chunks from an address on, and what the header
-- writes of one allocation do to that list.
use quad_os.Base.{
  ℕ, ◌+◌, ◌-◌, ◌^◌, ◌≤◌, ◌<◌, ◌≡◌, ap, ◌∙◌, true, false, List, [], ◌∷◌, leb, Bool-cases, inl, inr,
  arith,
}
use quad_os.Malloc.{Chunk, Headers, claim}
use quad_os.Malloc.Chunks.{chunk, IsSized, first_fit}

-- The chunks `cs` stand in memory from `pos` on, and the stop chunk behind them.
unfoldable pub Layout : Headers → ℕ → List Chunk → Type 0
Layout m pos [] = m pos ≡ chunk 0 false
Layout m pos (c ∷ cs) = (m pos ≡ c) × Layout m (pos + c.size) cs

-- Headers below the first chunk do not matter.
pub Layout-agree :
    (m m' : Headers) (pos : ℕ) (cs : List Chunk)
    → ((a : ℕ) → pos ≤ a → m' a ≡ m a)
    → Layout m pos cs
    → Layout m' pos cs
unfolding Layout
Layout-agree m m' pos [] same l = same pos (omega arith) ∙ l
Layout-agree m m' pos (c ∷ cs) same l = (
  same pos (omega arith) ∙ l.0,
  Layout-agree m m' (pos + c.size) cs (λ a h. same a (omega arith)) l.1,
)

pub claim_below :
    (real pos a : ℕ) (m : Headers) → a < pos → pos + real < 2 ^ 32 → claim real pos m a ≡ m a
unfolding claim
claim_below real pos a m h small = ground arith

-- Taking the stop chunk makes a new stop chunk behind it.
pub claim_end :
    (real pos : ℕ) (m : Headers)
    → IsSized (chunk real true)
    → pos + real < 2 ^ 32
    → m pos ≡ chunk 0 false
    → Layout (claim real pos m) pos (first_fit real [])
unfolding claim Layout first_fit
claim_end real pos m r small e = (ground arith, ground arith)

claim_beyond :
    (real pos a : ℕ) (m : Headers)
    → 0 < real
    → 0 < (m pos).size
    → real ≤ (m pos).size
    → pos + (m pos).size < 2 ^ 32
    → pos + (m pos).size ≤ a
    → claim real pos m a ≡ m a
unfolding claim
claim_beyond real pos a m r nonzero fit small far = ground arith

-- Taking a free chunk splits it, or uses it whole; the chunks behind it stay.
pub claim_fit :
    (real pos : ℕ) (m : Headers) (c : Chunk) (cs : List Chunk)
    → IsSized (chunk real true)
    → IsSized c
    → pos + c.size < 2 ^ 32
    → c.used ≡ false
    → real ≤ c.size
    → Layout m pos (c ∷ cs)
    → Layout (claim real pos m) pos (first_fit real (c ∷ cs))
unfolding claim Layout first_fit
claim_fit real pos m c cs r s small free fit l =
    let here : (m pos).size ≡ c.size = ap (λ (t : Chunk). t.size) l.0 in
    let behind : Layout (claim real pos m) (pos + c.size) cs =
      Layout-agree m (claim real pos m) (pos + c.size) cs
        (λ a far.
          claim_beyond real pos a m r.nonzero (omega (arith, here, s.nonzero)) (omega (arith, here))
            (omega (arith, here)) (omega (arith, here)))
        l.1 in
    let large : leb real c.size ≡ true = ground arith in
    elim (Bool-cases (leb 8 (c.size - real))) [
      | inl split ↦
          let same_end : pos + real + (c.size - real) ≡ pos + c.size = omega arith in
          rw (free, large, split) (ground arith, (ground arith, rw same_end behind))
      | inr whole ↦ rw (free, large, whole) (ground arith, behind)
    ]
