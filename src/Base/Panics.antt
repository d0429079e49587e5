-- ===== src/Base/Panics.antt =====
-- A kernel function either returns or stops the machine: `kernel_assert` on a false condition never
-- returns (it ends in `crash_and_burn`, which disables interrupts and halts). The third outcome is
-- that of a `while (true)` loop that has not returned within the fuel of its model.
use mathlib.Core.Path.{◌≡◌, refl}
use mathlib.Core.Bool.{Bool, true, false}

pub data Outcome {ℓ} (A : Type ℓ) : Type ℓ where
  ok : A → Outcome A
  panic : Outcome A
  spins : Outcome A

infixl 5 ◌>>◌ ◌>>=◌
abbrev pub ◌>>=◌ {κ ℓ} : {B : Type κ} {A : Type ℓ} → Outcome B → (B → Outcome A) → Outcome A
spins >>= next = spins
panic >>= next = panic
ok b >>= next = next b

abbrev pub ◌>>◌ {κ} : {A : Type κ} → Outcome (Unit {0}) → Outcome A → Outcome A
before >> after = before >>= λ _. after

unfoldable pub kernel_assert : Bool → Outcome (Unit {0})
kernel_assert true = ok tt
kernel_assert false = panic

pub ok-injective {ℓ} : {A : Type ℓ} {a b : A} → ok a ≡ ok b → a ≡ b
ok-injective h = cc

pub ok-ne-panic {ℓ} : {A : Type ℓ} {a : A} → ok a ≡ panic → ⊥
ok-ne-panic h = cc

-- `m` returns a value with `P`, or stops the machine, and then `E` holds; it does not loop for ever.
abbrev pub Delivers {ℓ} : Type 0 → {A : Type ℓ} → Outcome A → (A → Type 0) → Type 0
Delivers E (ok a) P = P a
Delivers E panic P = E
Delivers E spins P = ⊥

pub Delivers-bind {ℓ κ} :
    (E : Type 0) {A : Type ℓ} {B : Type κ} (m : Outcome A) (f : A → Outcome B) (P : A → Type 0)
    (Q : B → Type 0)
    → Delivers E m P
    → ((a : A) → P a → Delivers E (f a) Q)
    → Delivers E (m >>= f) Q
Delivers-bind E (ok a) f P Q h k = k a h
Delivers-bind E panic f P Q h k = h
Delivers-bind E spins f P Q h k = h

pub Delivers-map {ℓ} :
    (E : Type 0) {A : Type ℓ} (m : Outcome A) (P Q : A → Type 0)
    → Delivers E m P
    → ((a : A) → P a → Q a)
    → Delivers E m Q
Delivers-map E (ok a) P Q h k = k a h
Delivers-map E panic P Q h k = h
Delivers-map E spins P Q h k = h

pub Delivers-stop {ℓ} :
    (E F : Type 0) {A : Type ℓ} (m : Outcome A) (P : A → Type 0)
    → (E → F)
    → Delivers E m P
    → Delivers F m P
Delivers-stop E F (ok a) P g h = h
Delivers-stop E F panic P g h = g h
Delivers-stop E F spins P g h = h

-- `m` returns a value with `P`.
abbrev pub Returns {ℓ} : {A : Type ℓ} → Outcome A → (A → Type 0) → Type 0
Returns (ok a) P = P a
Returns panic P = ⊥
Returns spins P = ⊥

pub Returns-bind {ℓ κ} :
    {A : Type ℓ} {B : Type κ} (m : Outcome A) (f : A → Outcome B) (P : A → Type 0) (Q : B → Type 0)
    → Returns m P
    → ((a : A) → P a → Returns (f a) Q)
    → Returns (m >>= f) Q
Returns-bind (ok a) f P Q h k = k a h
Returns-bind panic f P Q h k = h
Returns-bind spins f P Q h k = h

pub Returns-map {ℓ} :
    {A : Type ℓ} (m : Outcome A) (P Q : A → Type 0)
    → Returns m P
    → ((a : A) → P a → Q a)
    → Returns m Q
Returns-map (ok a) P Q h k = k a h
Returns-map panic P Q h k = h
Returns-map spins P Q h k = h

-- The value that is returned.
pub returned {ℓ} :
    {A : Type ℓ} (m : Outcome A) (P : A → Type 0) → Returns m P → (a : A) × (m ≡ ok a) × P a
returned (ok a) P h = (a, refl, h)
returned panic P h = absurd h
returned spins P h = absurd h

pub Returns→Delivers {ℓ} :
    (E : Type 0) {A : Type ℓ} (m : Outcome A) (P : A → Type 0) → Returns m P → Delivers E m P
Returns→Delivers E (ok a) P h = h
Returns→Delivers E panic P h = absurd h
Returns→Delivers E spins P h = h

-- An `m` that does not loop for ever, with what its two ends are known to imply.
pub Delivers-known {ℓ} :
    (E F : Type 0) {A : Type ℓ} (m : Outcome A) (P Q : A → Type 0)
    → Delivers E m P
    → (m ≡ panic → F)
    → ((a : A) → m ≡ ok a → Q a)
    → Delivers F m Q
Delivers-known E F (ok a) P Q h stop k = k a refl
Delivers-known E F panic P Q h stop k = stop refl
Delivers-known E F spins P Q h stop k = h
