-- ===== src/Util.antt =====
-- kernel/util.c: the kernel's own memory and string functions, over arrays of bytes. A string is an
-- array that holds a byte 0; a byte read past the array is 0, and a write there is dropped (the
-- theorems ask for arrays that are large enough).
pub mod Strings
mod Examples
use quad_os.Base.{
  ℕ, zero, suc, ◌+◌, ◌-◌, ◌/◌, ◌%◌, ◌^◌, Bool, true, false, not, ◌&&◌, ◌||◌, List, [], ◌∷◌, ◌==◌,
  if◌then◌else◌, get_or, set, sub32, Option, none, some,
}

-- `for (; len != 0; len--) *temp++ = val;` from the offset `i` on
unfoldable pub memset : List ℕ → ℕ → ℕ → ℕ → List ℕ
memset dest i val zero = dest
memset dest i val (suc len) = memset (set dest i (val % 256)) (i + 1) val len

-- The loop of `strlen` from `i` on, with fuel for the bytes left; `none` if they hold no byte 0.
unfoldable pub strlen_from : ℕ → List ℕ → ℕ → Option ℕ
strlen_from zero str i = none
strlen_from (suc fuel) str i =
    let rest = strlen_from fuel str (i + 1) in if get_or str i 0 == 0 then some i else rest

unfoldable pub strlen : ℕ → List ℕ → Option ℕ
unfolding strlen_from
strlen fuel str = strlen_from fuel str 0

-- `while (src[i] != '\0') { dest[i] = src[i]; i++; }`: the byte 0 itself is not copied.
unfoldable pub strcpy_from : ℕ → List ℕ → List ℕ → ℕ → Option (List ℕ)
strcpy_from zero dest src i = none
strcpy_from (suc fuel) dest src i =
    let rest = strcpy_from fuel (set dest i (get_or src i 0)) src (i + 1) in
    if get_or src i 0 == 0 then some dest else rest

unfoldable pub strcpy : ℕ → List ℕ → List ℕ → Option (List ℕ)
unfolding strcpy_from
strcpy fuel dest src = strcpy_from fuel dest src 0

-- The `do` loop of `strncpy` from `i` on, with `n` bytes to go: copy up to a byte 0, then pad.
unfoldable pub strncpy_from : List ℕ → List ℕ → ℕ → ℕ → List ℕ
unfolding memset
strncpy_from dst src i zero = dst
strncpy_from dst src i (suc n) =
    let c = get_or src i 0 in
    let rest = strncpy_from (set dst i c) src (i + 1) n in
    if c == 0 then memset (set dst i c) (i + 1) 0 n else rest

unfoldable pub strncpy : List ℕ → List ℕ → ℕ → List ℕ
unfolding strncpy_from
strncpy dst src n = strncpy_from dst src 0 n

-- `strcmp` from `i` on; the result is the difference of the first bytes that end the loop, as the
-- `uint32_t` that it is returned in. (`char` is signed: bytes from 128 on are negative.)
abbrev pub char_bits : ℕ → ℕ
char_bits c = if c / 128 == 0 then c else c + (2 ^ 32 - 256)

unfoldable pub strcmp_from : ℕ → List ℕ → List ℕ → ℕ → Option ℕ
strcmp_from zero s1 s2 i = none
strcmp_from (suc fuel) s1 s2 i =
    let a = get_or s1 i 0 in
    let b = get_or s2 i 0 in
    let rest = strcmp_from fuel s1 s2 (i + 1) in
    if not (a == 0) && (not (b == 0) && (a == b))
    then rest
    else some (sub32 (char_bits a) (char_bits b))

unfoldable pub strcmp : ℕ → List ℕ → List ℕ → Option ℕ
unfolding strcmp_from
strcmp fuel s1 s2 = strcmp_from fuel s1 s2 0

-- `strncmp` from `i` on, with `n` bytes to go; here the bytes are unsigned.
unfoldable pub strncmp_from : List ℕ → List ℕ → ℕ → ℕ → ℕ
strncmp_from s1 s2 i zero = 0
strncmp_from s1 s2 i (suc n) =
    let u1 = get_or s1 i 0 in
    let u2 = get_or s2 i 0 in
    let rest = strncmp_from s1 s2 (i + 1) n in
    if not (u1 == u2) then sub32 u1 u2 else if u1 == 0 then 0 else rest

unfoldable pub strncmp : List ℕ → List ℕ → ℕ → ℕ
unfolding strncmp_from
strncmp s1 s2 n = strncmp_from s1 s2 0 n
