-- ===== src/PhysAlloc/Scan.antt =====
-- kernel/physalloc.c, the two loops of `pmm_alloc_pageframe`: what they find, and what it means
-- that they find nothing.
use quad_os.Base.{
  ℕ, zero, suc, ◌+◌, ◌*◌, ◌/◌, ◌%◌, ◌≤◌, ◌<◌, ◌≡◌, inl, inr, Bool, true, false, List, Option, none,
  some, ◌==◌, ==_iff, if◌then◌else◌, Bool-cases, Option-cases, arith,
}
use quad_os.PhysAlloc.{bit, byte_at, free_bit, free_slot}
use quad_os.PhysAlloc.Bits.{bit-full}

-- The bit of frame `f` in a bitmap.
abbrev pub frame_bit : List ℕ → ℕ → Bool
frame_bit bitmap f = bit (byte_at bitmap (f / 8)) (f % 8)

-- `free_bit` finds the lowest clear bit.
pub free_bit-some :
    (byte i rounds j : ℕ)
    → free_bit byte i rounds ≡ some j
    → (i ≤ j) × (j < i + rounds) × (bit byte j ≡ false)
unfolding free_bit
free_bit-some byte i zero j h = ground arith
free_bit-some byte i (suc rounds) j h = elim (Bool-cases (bit byte i)) [
  | inl e ↦ ground (arith, free_bit-some byte (i + 1) rounds j)
  | inr e ↦ ground arith
]

pub free_bit-below :
    (byte i rounds j m : ℕ) → free_bit byte i rounds ≡ some j → i ≤ m → m < j → bit byte m ≡ true
unfolding free_bit
free_bit-below byte i zero j m h lo hi = ground arith
free_bit-below byte i (suc rounds) j m h lo hi = elim (Bool-cases (i == m)) [
  | inl e ↦ ground (arith, (==_iff i m).0 e)
  | inr e ↦ ground (arith, free_bit-below byte (i + 1) rounds j m)
]

pub free_bit-none :
    (byte i rounds m : ℕ)
    → free_bit byte i rounds ≡ none
    → i ≤ m
    → m < i + rounds
    → bit byte m ≡ true
unfolding free_bit
free_bit-none byte i zero m h lo hi = absurd (omega arith)
free_bit-none byte i (suc rounds) m h lo hi = elim (Bool-cases (i == m)) [
  | inl e ↦ ground (arith, (==_iff i m).0 e)
  | inr e ↦ ground (arith, free_bit-none byte (i + 1) rounds m)
]

-- What one step of the outer loop finds in the byte `byte`.
step : ℕ → Option ℕ
step byte = if byte == 0xff then none else free_bit byte 0 8

step-none : (byte j : ℕ) → step byte ≡ none → j < 8 → bit byte j ≡ true
unfolding step
step-none byte j h hj = elim (Bool-cases (byte == 0xff)) [
  | inl e ↦ ground (arith, (==_iff byte 0xff).0 e, bit-full j hj)
  | inr e ↦ ground (arith, free_bit-none byte 0 8 j)
]

step-some : (byte i : ℕ) → step byte ≡ some i → free_bit byte 0 8 ≡ some i
unfolding step
step-some byte i h = ground arith

free_slot-suc :
    (bitmap : List ℕ) (b rounds : ℕ)
    → free_slot bitmap b (suc rounds) ≡ elim (step (byte_at bitmap b)) [
      | some i ↦ some (b, i)
      | none ↦ free_slot bitmap (b + 1) rounds
    ]
unfolding step free_slot
free_slot-suc bitmap b rounds = ground arith

pub free_slot-some :
    (bitmap : List ℕ) (b rounds c i : ℕ)
    → free_slot bitmap b rounds ≡ some (c, i)
    → (b ≤ c) × (c < b + rounds) × (i < 8) × (bit (byte_at bitmap c) i ≡ false)
unfolding free_slot
free_slot-some bitmap b zero c i h = ground arith
free_slot-some bitmap b (suc rounds) c i h = elim (Option-cases (step (byte_at bitmap b))) [
  | inl e ↦
      let h' = rw (free_slot-suc bitmap b rounds, e) at h in
      ground (arith, free_slot-some bitmap (b + 1) rounds c i h')
  | inr (j, e) ↦
      let h' = rw (free_slot-suc bitmap b rounds, e) at h in
      ground (arith, free_bit-some (byte_at bitmap b) 0 8 j (step-some _ j e))
]

-- Every frame below the slot that the scan finds is in use.
pub free_slot-below :
    (bitmap : List ℕ) (b rounds c i f : ℕ)
    → free_slot bitmap b rounds ≡ some (c, i)
    → b * 8 ≤ f
    → f < c * 8 + i
    → frame_bit bitmap f ≡ true
free_slot-below bitmap b zero c i f h lo hi = unfold free_slot in ground (arith, h)
free_slot-below bitmap b (suc rounds) c i f h lo hi =
    elim (Option-cases (step (byte_at bitmap b))) [
      | inl e ↦
          let h' = rw (free_slot-suc bitmap b rounds, e) at h in
          elim (Bool-cases (f / 8 == b)) [
            | inl k ↦ rw ((==_iff _ _).0 k) (step-none (byte_at bitmap b) (f % 8) e (omega arith))
            | inr k ↦ free_slot-below bitmap (b + 1) rounds c i f h' (ground arith) hi
          ]
      | inr (j, e) ↦
          let h' = rw (free_slot-suc bitmap b rounds, e) at h in
          let same_byte : f / 8 ≡ b =
            ground (arith, free_bit-some (byte_at bitmap b) 0 8 j (step-some _ j e)) in
          rw same_byte (
            free_bit-below (byte_at bitmap b) 0 8 j (f % 8) (step-some _ j e) (omega arith)
              (ground arith))
    ]

-- Where the scan finds no slot, every frame that it covers is in use.
pub free_slot-none :
    (bitmap : List ℕ) (b rounds f : ℕ)
    → free_slot bitmap b rounds ≡ none
    → b * 8 ≤ f
    → f < (b + rounds) * 8
    → frame_bit bitmap f ≡ true
free_slot-none bitmap b zero f h lo hi = absurd (omega arith)
free_slot-none bitmap b (suc rounds) f h lo hi = elim (Option-cases (step (byte_at bitmap b))) [
  | inl e ↦
      let h' = rw (free_slot-suc bitmap b rounds, e) at h in
      elim (Bool-cases (f / 8 == b)) [
        | inl k ↦ rw ((==_iff _ _).0 k) (step-none (byte_at bitmap b) (f % 8) e (omega arith))
        | inr k ↦ free_slot-none bitmap (b + 1) rounds f h' (ground arith) (omega arith)
      ]
  | inr (j, e) ↦ let h' = rw (free_slot-suc bitmap b rounds, e) at h in ground arith
]
