-- ===== src/Util/Examples.antt =====
-- kernel/util.c on short strings.
use quad_os.Base.{
  ℕ, zero, suc, ◌<◌, ◌≡◌, ◌≢◌, refl, List, [], ◌∷◌, if◌then◌else◌, ltb, get_or, some, arith,
}
use quad_os.Util.{strcpy}
use quad_os.Util.Strings.{HasLength, strcpy_lem}

-- "QuadOS", and a byte after its end.
abbrev quad_os_name : List ℕ
quad_os_name = b'Q' ∷ (b'u' ∷ (b'a' ∷ (b'd' ∷ (b'O' ∷ (b'S' ∷ (0 ∷ (9 ∷ [])))))))

abbrev dirty : List ℕ
dirty = 7 ∷ (7 ∷ (7 ∷ (7 ∷ (7 ∷ (7 ∷ (7 ∷ (7 ∷ [])))))))

name-HasLength : HasLength quad_os_name 6
name-HasLength = record { nonzero = λ i lt. inside i lt; ends = refl }
  where
    inside : (i : ℕ) → i < 6 → get_or quad_os_name i 0 ≢ 0
    inside zero lt = omega arith
    inside (suc zero) lt = omega arith
    inside (suc (suc zero)) lt = omega arith
    inside (suc (suc (suc zero))) lt = omega arith
    inside (suc (suc (suc (suc zero)))) lt = omega arith
    inside (suc (suc (suc (suc (suc zero))))) lt = omega arith
    inside (suc (suc (suc (suc (suc (suc i)))))) lt = absurd (omega arith)

strcpy_lem_example :
    (out : List ℕ) × (strcpy 8 dirty quad_os_name ≡ some out)
    × ((j : ℕ) → get_or out j 0 ≡ (if ltb j 6 then get_or quad_os_name j 0 else get_or dirty j 0))
strcpy_lem_example = strcpy_lem 8 6 dirty quad_os_name name-HasLength (omega arith) (omega arith)
