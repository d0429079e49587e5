-- ===== src/Base/Arrays.antt =====
-- Loops that shift a part of an array by one place, and the lists that they leave.
use Prim.Native.Nat.{ℕ, zero, suc, ◌+◌, ◌-◌, ◌≤◌, ◌<◌}
use mathlib.Core.Path.{◌≡◌, refl, ap, ◌∙◌}
use mathlib.Core.List.{List, [], ◌∷◌, ◌++◌, append_assoc}
use native.Mathlib.Omega.{arith}
use quad_os.Base.Lists.{length, get_or, set, length-set}

module _ {ℓ} {A : Type ℓ} where
  unfoldable pub take : ℕ → List A → List A
  take zero _ = []
  take (suc n) [] = []
  take (suc n) (x ∷ xs) = x ∷ take n xs

  unfoldable pub drop : ℕ → List A → List A
  drop zero xs = xs
  drop (suc n) [] = []
  drop (suc n) (x ∷ xs) = drop n xs

  pub length-take : (n : ℕ) (xs : List A) → n ≤ length xs → length (take n xs) ≡ n
  unfolding take
  length-take zero xs h = refl
  length-take (suc n) [] h = absurd (omega arith)
  length-take (suc n) (x ∷ xs) h = ap suc (length-take n xs (omega arith))

  take-set : (k i : ℕ) (xs : List A) (v : A) → k ≤ i → take k (set xs i v) ≡ take k xs
  unfolding take
  take-set zero i xs v h = refl
  take-set (suc k) i [] v h = refl
  take-set (suc k) zero (x ∷ xs) v h = absurd (omega arith)
  take-set (suc k) (suc i) (x ∷ xs) v h = ap (λ r. x ∷ r) (take-set k i xs v (omega arith))

  drop-set :
      (i : ℕ) (xs : List A) (v : A) → i < length xs → drop i (set xs i v) ≡ v ∷ drop (suc i) xs
  unfolding drop
  drop-set i [] v h = elim h [ ]
  drop-set zero (x ∷ xs) v h = refl
  drop-set (suc i) (x ∷ xs) v h = drop-set i xs v (omega arith)

  take-suc :
      (k : ℕ) (xs : List A) (d : A)
      → k < length xs
      → take (suc k) xs ≡ take k xs ++ (get_or xs k d ∷ [])
  unfolding take
  take-suc k [] d h = elim h [ ]
  take-suc zero (x ∷ xs) d h = refl
  take-suc (suc k) (x ∷ xs) d h = ap (λ r. x ∷ r) (take-suc k xs d (omega arith))

  pub take-append : (xs ys : List A) → take (length xs) (xs ++ ys) ≡ xs
  unfolding take
  take-append [] ys = refl
  take-append (x ∷ xs) ys = ap (λ r. x ∷ r) (take-append xs ys)

  pub drop-append : (xs ys : List A) → drop (length xs) (xs ++ ys) ≡ ys
  unfolding drop
  drop-append [] ys = refl
  drop-append (x ∷ xs) ys = drop-append xs ys

  -- The list without its entry `k`.
  unfoldable pub remove_at : ℕ → List A → List A
  remove_at k [] = []
  remove_at zero (x ∷ xs) = xs
  remove_at (suc k) (x ∷ xs) = x ∷ remove_at k xs

  -- `for (i = from; rounds are left; i++) a[i] = a[i + 1];` with `d` for a read out of range.
  unfoldable pub shift_left : A → ℕ → ℕ → List A → List A
  shift_left d from zero xs = xs
  shift_left d from (suc rounds) xs =
      shift_left d (from + 1) rounds (set xs from (get_or xs (from + 1) d))

  -- `for (i = k - 1; i >= 0; i--) a[i + 1] = a[i];`
  unfoldable pub shift_right : A → ℕ → List A → List A
  shift_right d zero xs = xs
  shift_right d (suc k) xs = shift_right d k (set xs (suc k) (get_or xs k d))

  shift_right-eq :
      (d : A) (k : ℕ) (xs : List A)
      → k < length xs
      → shift_right d k xs ≡ take 1 xs ++ (take k xs ++ drop (suc k) xs)
  unfolding shift_right take drop
  shift_right-eq d zero [] h = refl
  shift_right-eq d zero (x ∷ xs) h = refl
  shift_right-eq d (suc k) xs h =
      let v = get_or xs k d in
      shift_right-eq d k (set xs (suc k) v) (omega (arith, length-set xs (suc k) v))
      ∙ rw (
        take-set 1 (suc k) xs v (omega arith),
        take-set k (suc k) xs v (omega arith),
        drop-set (suc k) xs v h,
        take-suc k xs d (omega arith),
        append_assoc,
      )

  shift_left-suc :
      (d : A) (from rounds : ℕ) (x : A) (xs : List A)
      → shift_left d (suc from) rounds (x ∷ xs) ≡ x ∷ shift_left d from rounds xs
  unfolding shift_left
  shift_left-suc d from zero x xs = refl
  shift_left-suc d from (suc rounds) x xs =
      let e : suc from + 1 ≡ suc (from + 1) = omega arith in
      rw e (shift_left-suc d (from + 1) rounds x (set xs from (get_or xs (from + 1) d)))

  shift_left-cons :
      (d z : A) (zs rest : List A)
      → shift_left d 0 (suc (length zs)) (z ∷ (zs ++ (d ∷ rest))) ≡ zs ++ (d ∷ (d ∷ rest))
  unfolding shift_left
  shift_left-cons d z [] rest = refl
  shift_left-cons d z (y ∷ ys) rest =
      shift_left-suc d 0 (suc (length ys)) y (y ∷ (ys ++ (d ∷ rest)))
      ∙ ap (λ r. y ∷ r) (shift_left-cons d y ys rest)

  -- Shifting left over the entry `k`, up to the end `zs`, of an array that goes on with `d`.
  pub shift_left-eq :
      (d : A) (k : ℕ) (zs rest : List A)
      → k < length zs
      → shift_left d k (length zs - k) (zs ++ (d ∷ rest)) ≡ remove_at k zs ++ (d ∷ (d ∷ rest))
  unfolding remove_at
  shift_left-eq d k [] rest h = elim h [ ]
  shift_left-eq d zero (z ∷ zs) rest h =
      let e : length (z ∷ zs) - 0 ≡ suc (length zs) = omega arith in
      rw e (shift_left-cons d z zs rest)
  shift_left-eq d (suc k) (z ∷ zs) rest h =
      let e : length (z ∷ zs) - suc k ≡ length zs - k = omega arith in
      rw e (
        shift_left-suc d k (length zs - k) z (zs ++ (d ∷ rest))
        ∙ ap (λ r. z ∷ r) (shift_left-eq d k zs rest (omega arith)))

  shift_left-cons_within :
      (d z : A) (zs rest : List A)
      → (e : A) × (shift_left d 0 (length zs) (z ∷ (zs ++ rest)) ≡ zs ++ (e ∷ rest))
  unfolding shift_left
  shift_left-cons_within d z [] rest = (z, refl)
  shift_left-cons_within d z (y ∷ ys) rest =
      let (e, eq) = shift_left-cons_within d y ys rest in
      (e, shift_left-suc d 0 (length ys) y (y ∷ (ys ++ rest)) ∙ ap (λ r. y ∷ r) eq)

  -- Shifting left over the entry `k`, up to the last of `zs`, which is left there twice.
  pub shift_left_within :
      (d : A) (k : ℕ) (zs rest : List A)
      → k < length zs
      → (e : A) × (shift_left d k (length zs - 1 - k) (zs ++ rest) ≡ remove_at k zs ++ (e ∷ rest))
  unfolding remove_at
  shift_left_within d k [] rest h = elim h [ ]
  shift_left_within d zero (z ∷ zs) rest h =
      let rounds : length (z ∷ zs) - 1 - 0 ≡ length zs = omega arith in
      rw rounds (shift_left-cons_within d z zs rest)
  shift_left_within d (suc k) (z ∷ zs) rest h =
      let rounds : length (z ∷ zs) - 1 - suc k ≡ length zs - 1 - k = omega arith in
      let (e, eq) = shift_left_within d k zs rest (omega arith) in
      (
        e,
        ap (λ (n : ℕ). shift_left d (suc k) n (z ∷ (zs ++ rest))) rounds
            ∙ (shift_left-suc d k (length zs - 1 - k) z (zs ++ rest) ∙ ap (λ r. z ∷ r) eq),
      )

  -- Making room for the entry `k` at the front, and writing it there, moves it to the front.
  pub shift_right_front :
      (d v : A) (k : ℕ) (xs : List A)
      → k < length xs
      → set (shift_right d k xs) 0 v ≡ v ∷ remove_at k xs
  unfolding take drop remove_at
  shift_right_front d v k [] h = elim h [ ]
  shift_right_front d v zero (x ∷ xs) h = rw (shift_right-eq d zero (x ∷ xs) h)
  shift_right_front d v (suc k) (x ∷ xs) h =
      rw (shift_right-eq d (suc k) (x ∷ xs) h)
        (ap (λ r. v ∷ (x ∷ r)) (take-drop k xs (omega arith)))
    where
      take-drop :
          (k : ℕ) (xs : List A) → k < length xs → take k xs ++ drop (suc k) xs ≡ remove_at k xs
      take-drop k [] h = elim h [ ]
      take-drop zero (x ∷ xs) h = refl
      take-drop (suc k) (x ∷ xs) h = ap (λ r. x ∷ r) (take-drop k xs (omega arith))
