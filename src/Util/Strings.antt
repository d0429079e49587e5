-- ===== src/Util/Strings.antt =====
-- kernel/util.c: what the string functions compute.
use quad_os.Base.{
  ℕ, zero, suc, ◌+◌, ◌%◌, ◌≤◌, ◌<◌, ◌≡◌, ◌≢◌, ◌∙◌, refl, true, false, List, ◌==◌, ==_iff, ltb, leb,
  ◌&&◌, if◌then◌else◌, Bool-cases, inl, inr, length, get_or, set, length-set, get_or-set_self,
  get_or-set_ne, some, arith,
}
use quad_os.Util.{memset, strlen, strlen_from, strcpy, strcpy_from, strncpy, strncpy_from}

-- The string in `str` has `n` bytes before its byte 0.
pub record HasLength (str : List ℕ) (n : ℕ) : Type 0 where
  pub nonzero : (i : ℕ) → i < n → get_or str i 0 ≢ 0
  pub ends : get_or str n 0 ≡ 0

strlen_from-eq :
    (fuel i n : ℕ) (str : List ℕ)
    → HasLength str n
    → i ≤ n
    → n < i + fuel
    → strlen_from fuel str i ≡ some n
unfolding strlen_from
strlen_from-eq zero i n str h le f = absurd (omega arith)
strlen_from-eq (suc fuel) i n str h le f = elim (Bool-cases (i == n)) [
  | inl e ↦ ground (arith, h.ends, (==_iff i n).0 e)
  | inr ne ↦
      ground (arith, h.nonzero i, strlen_from-eq fuel (i + 1) n str h (ground arith) (omega arith))
]

-- `strlen` counts the bytes before the byte 0, given more fuel than there are.
pub strlen_lem : (fuel n : ℕ) (str : List ℕ) → HasLength str n → n < fuel → strlen fuel str ≡ some n
unfolding strlen
strlen_lem fuel n str h f = strlen_from-eq fuel 0 n str h (omega arith) (omega arith)

length-memset : (len i val : ℕ) (dest : List ℕ) → length (memset dest i val len) ≡ length dest
unfolding memset
length-memset zero i val dest = refl
length-memset (suc len) i val dest = omega (
  arith,
  length-memset len (i + 1) val (set dest i (val % 256)),
  length-set {0} dest i (val % 256),
)

-- `memset` writes the bytes from `i` to `i + len`, and no other.
pub get_or-memset :
    (len i val j : ℕ) (dest : List ℕ)
    → i + len ≤ length dest
    → get_or (memset dest i val len) j 0
      ≡ (if leb i j && ltb j (i + len) then val % 256 else get_or dest j 0)
unfolding memset
get_or-memset zero i val j dest h = ground arith
get_or-memset (suc len) i val j dest h = elim (Bool-cases (i == j)) [
  | inl e ↦ ground (
    arith,
    get_or-memset len (i + 1) val j (set dest i (val % 256)),
    length-set dest i (val % 256),
    get_or-set_self dest i (val % 256) 0,
    (==_iff i j).0 e,
  )
  | inr ne ↦ ground (
    arith,
    get_or-memset len (i + 1) val j (set dest i (val % 256)),
    length-set dest i (val % 256),
    get_or-set_ne dest i j (val % 256) 0,
  )
]

copied :
    (dest src out : List ℕ) (i n j : ℕ)
    → i < n
    → n ≤ length dest
    → ((j : ℕ)
        → get_or out j 0 ≡ (
            if leb (i + 1) j && ltb j n
            then get_or src j 0
            else get_or (set dest i (get_or src i 0)) j 0))
    → get_or out j 0 ≡ (if leb i j && ltb j n then get_or src j 0 else get_or dest j 0)
copied dest src out i n j lt room at = elim (Bool-cases (i == j)) [
  | inl e ↦ ground (arith, at j, get_or-set_self dest i (get_or src i 0) 0, (==_iff i j).0 e)
  | inr ne ↦ ground (arith, at j, get_or-set_ne dest i j (get_or src i 0) 0)
]

strcpy_from-eq :
    (fuel i n : ℕ) (dest src : List ℕ)
    → HasLength src n
    → i ≤ n
    → n < i + fuel
    → n ≤ length dest
    → (out : List ℕ) × (strcpy_from fuel dest src i ≡ some out)
      × ((j : ℕ)
          → get_or out j 0 ≡ (if leb i j && ltb j n then get_or src j 0 else get_or dest j 0))
unfolding strcpy_from
strcpy_from-eq zero i n dest src h le f room = absurd (omega arith)
strcpy_from-eq (suc fuel) i n dest src h le f room = elim (Bool-cases (i == n)) [
  | inl e ↦
      let stop : (get_or src i 0 == 0) ≡ true = ground (arith, h.ends, (==_iff i n).0 e) in
      (dest, rw stop refl, λ j. ground arith)
  | inr ne ↦
      let on : (get_or src i 0 == 0) ≡ false = ground (arith, h.nonzero i) in
      let next = set dest i (get_or src i 0) in
      let (out, eq, at) =
        strcpy_from-eq fuel (i + 1) n next src h (ground arith) (omega arith)
          (omega (arith, length-set {0} dest i (get_or src i 0))) in
      (out, rw on eq, λ j. copied dest src out i n j (ground arith) room at)
]

-- Given fuel for the string and room for its bytes, `strcpy` copies the bytes before the byte 0 and
-- changes no other: the byte 0 is not written.
pub strcpy_lem :
    (fuel n : ℕ) (dest src : List ℕ)
    → HasLength src n
    → n < fuel
    → n ≤ length dest
    → (out : List ℕ) × (strcpy fuel dest src ≡ some out)
      × ((j : ℕ) → get_or out j 0 ≡ (if ltb j n then get_or src j 0 else get_or dest j 0))
unfolding strcpy
strcpy_lem fuel n dest src h f room =
    let (out, eq, at) = strcpy_from-eq fuel 0 n dest src h (omega arith) (omega arith) room in
    (out, eq, λ j. ground (arith, at j))

-- What `strncpy` leaves at `j`, started at `i` with `n` bytes to go.
abbrev padded : List ℕ → List ℕ → ℕ → ℕ → ℕ → ℕ → ℕ
padded dst src len i n j =
    if leb i j && ltb j (i + n) then (if ltb j len then get_or src j 0 else 0) else get_or dst j 0

stopped :
    (dst src : List ℕ) (i n len j : ℕ)
    → i ≡ len
    → i < length dst
    → (if leb (i + 1) j && ltb j (i + 1 + n) then 0 else get_or (set dst i 0) j 0)
      ≡ padded dst src len i (suc n) j
stopped dst src i n len j e room = elim (Bool-cases (i == j)) [
  | inl same ↦ ground (arith, get_or-set_self dst i 0 0, (==_iff i j).0 same)
  | inr ne ↦ ground (arith, get_or-set_ne dst i j 0 0)
]

went_on :
    (dst src : List ℕ) (i n len j : ℕ)
    → i < len
    → i < length dst
    → padded (set dst i (get_or src i 0)) src len (i + 1) n j ≡ padded dst src len i (suc n) j
went_on dst src i n len j lt room = elim (Bool-cases (i == j)) [
  | inl same ↦ ground (arith, get_or-set_self dst i (get_or src i 0) 0, (==_iff i j).0 same)
  | inr ne ↦ ground (arith, get_or-set_ne dst i j (get_or src i 0) 0)
]

strncpy_from-eq :
    (i n len j : ℕ) (dst src : List ℕ)
    → HasLength src len
    → i ≤ len
    → i + n ≤ length dst
    → get_or (strncpy_from dst src i n) j 0 ≡ padded dst src len i n j
unfolding strncpy_from
strncpy_from-eq i zero len j dst src h le room = ground arith
strncpy_from-eq i (suc n) len j dst src h le room = elim (Bool-cases (i == len)) [
  | inl e ↦
      let at_end : i ≡ len = (==_iff i len).0 e in
      let zero_byte : get_or src i 0 ≡ 0 = rw at_end h.ends in
      rw (zero_byte) (
        get_or-memset n (i + 1) 0 j (set dst i 0) (omega (arith, length-set {0} dst i 0))
        ∙ stopped dst src i n len j at_end (omega arith))
  | inr ne ↦
      let on : (get_or src i 0 == 0) ≡ false = ground (arith, h.nonzero i) in
      rw on (
        strncpy_from-eq (i + 1) n len j (set dst i (get_or src i 0)) src h (ground arith)
          (omega (arith, length-set {0} dst i (get_or src i 0)))
        ∙ went_on dst src i n len j (ground arith) (omega arith))
]

-- `strncpy` writes `n` bytes exactly: the string's, and 0 from its end on.
pub strncpy_lem :
    (n len j : ℕ) (dst src : List ℕ)
    → HasLength src len
    → n ≤ length dst
    → get_or (strncpy dst src n) j 0
      ≡ (if ltb j n then (if ltb j len then get_or src j 0 else 0) else get_or dst j 0)
unfolding strncpy
strncpy_lem n len j dst src h room =
    strncpy_from-eq 0 n len j dst src h (omega arith) (omega arith) ∙ ground arith
