-- ===== src/Windows/Order.antt =====
-- kernel/windows.c: the front-to-back order as a list, and what the array loops do to it.
use quad_os.Base.{
  ℕ, zero, suc, ◌+◌, ◌-◌, ◌≤◌, ◌<◌, ◌≡◌, ◌≢◌, refl, sym, ap, ◌∙◌, Bool, true, false, List, [], ◌∷◌,
  ◌++◌, none, some, ◌==◌, ==_iff, ltb, if◌then◌else◌, Bool-cases, Option-cases, inl, inr, length,
  get_or, set, replicate, remove_at, shift_left-eq, shift_right, shift_right_front, All, panic,
  Returns, arith,
}
use quad_os.Windows.{
  Desktop, max_windows, no_window, find_index_from, z_order_find_index, z_order_remove_at,
  move_window_to_front,
}

-- Whether a window is in the order, and the order without it.
unfoldable pub in_order : ℕ → List ℕ → Bool
in_order w [] = false
in_order w (z ∷ zs) = if z == w then true else in_order w zs

unfoldable pub erase : ℕ → List ℕ → List ℕ
erase w [] = []
erase w (z ∷ zs) = if z == w then zs else z ∷ erase w zs

-- An index that is found is that of the entry which `erase` takes out.
pub record Found (i : ℕ) (zs : List ℕ) (w k : ℕ) : Type 0 where
  pub offset : ℕ
  pub index : k ≡ i + offset
  pub inside : offset < length zs
  pub removed : remove_at offset zs ≡ erase w zs
  pub present : in_order w zs ≡ true

find_index_from-Found :
    (i : ℕ) (zs : List ℕ) (w k : ℕ) → find_index_from i zs w ≡ some k → Found i zs w k
unfolding find_index_from erase in_order remove_at
find_index_from-Found i [] w k h = absurd (cc h)
find_index_from-Found i (z ∷ zs) w k h = elim (Bool-cases (z == w)) [
  | inl e ↦ record {
    offset = 0;
    index = ground arith;
    inside = omega arith;
    removed = rw e refl;
    present = rw e refl;
  }
  | inr ne ↦
      let f = find_index_from-Found (i + 1) zs w k (rw ne at h) in
      record {
        offset = suc f.offset;
        index = omega (arith, f.index);
        inside = omega (arith, f.inside);
        removed = rw ne (ap (λ r. z ∷ r) f.removed);
        present = rw ne f.present;
      }
]

find_index_from-none :
    (i : ℕ) (zs : List ℕ) (w : ℕ) → find_index_from i zs w ≡ none → in_order w zs ≡ false
unfolding find_index_from in_order
find_index_from-none i [] w h = refl
find_index_from-none i (z ∷ zs) w h = ground (arith, find_index_from-none (i + 1) zs w)

-- The array holds the order `zs`, and -1 in its other places.
pub record Holds {S : Type 0} (d : Desktop S) (zs : List ℕ) : Type 0 where
  pub entries : d.window_z_order ≡ zs ++ replicate (max_windows - length zs) no_window
  pub count : d.z_order_length ≡ length zs
  pub fits : length zs ≤ max_windows
  pub ids : All (λ z. z < max_windows) zs

pub in_order-append : (w : ℕ) (xs ys : List ℕ) → in_order w xs ≡ true → in_order w (xs ++ ys) ≡ true
unfolding in_order
in_order-append w [] ys h = absurd (cc h)
in_order-append w (x ∷ xs) ys h = ground (arith, in_order-append w xs ys)

in_order-append_none :
    (w : ℕ) (xs : List ℕ) (n : ℕ)
    → in_order w xs ≡ false
    → w < max_windows
    → in_order w (xs ++ replicate n no_window) ≡ false
unfolding in_order replicate
in_order-append_none w [] zero h small = refl
in_order-append_none w [] (suc n) h small = ground (arith, in_order-append_none w [] n)
in_order-append_none w (x ∷ xs) n h small = ground (arith, in_order-append_none w xs n)

erase-append :
    (w : ℕ) (xs ys : List ℕ) → in_order w xs ≡ true → erase w (xs ++ ys) ≡ erase w xs ++ ys
unfolding in_order erase
erase-append w [] ys h = absurd (cc h)
erase-append w (x ∷ xs) ys h = ground (arith, erase-append w xs ys)

pub length-erase :
    (w : ℕ) (zs : List ℕ) → in_order w zs ≡ true → length (erase w zs) + 1 ≡ length zs
unfolding in_order erase
length-erase w [] h = absurd (cc h)
length-erase w (z ∷ zs) h = ground (arith, length-erase w zs)

pub All-erase :
    (w : ℕ) (zs : List ℕ) → All (λ z. z < max_windows) zs → All (λ z. z < max_windows) (erase w zs)
unfolding erase
All-erase w [] v = tt
All-erase w (z ∷ zs) v = ground (arith, All-erase w zs)

in_order-lt :
    (w : ℕ) (zs : List ℕ) → All (λ z. z < max_windows) zs → in_order w zs ≡ true → w < max_windows
unfolding in_order
in_order-lt w [] v h = absurd (cc h)
in_order-lt w (z ∷ zs) v h = ground (arith, in_order-lt w zs)

-- In a valid array a window of the order has an index.
pub find-some :
    (w : ℕ) (arr : List ℕ) → in_order w arr ≡ true → (k : ℕ) × (z_order_find_index arr w ≡ some k)
unfolding z_order_find_index
find-some w arr h = elim (Option-cases (find_index_from 0 arr w)) [
  | inl e ↦ absurd (cc (h, find_index_from-none 0 arr w e))
  | inr (k, e) ↦ (k, e)
]

erase-front :
    (w : ℕ) (arr : List ℕ)
    → (get_or arr 0 no_window == w) ≡ true
    → in_order w arr ≡ true
    → arr ≡ w ∷ erase w arr
unfolding erase in_order
erase-front w [] e h = absurd (cc h)
erase-front w (x ∷ xs) e h = rw e (ap (λ (t : ℕ). t ∷ xs) ((==_iff x w).0 e))

moved :
    (w : ℕ) (arr : List ℕ) (k : ℕ)
    → z_order_find_index arr w ≡ some k
    → set (shift_right no_window k arr) 0 w ≡ w ∷ erase w arr
unfolding z_order_find_index
moved w arr k found =
    let f = find_index_from-Found 0 arr w k found in
    shift_right_front no_window w k arr (omega (arith, f.index, f.inside))
    ∙ ap (λ r. w ∷ r) (ap (λ (n : ℕ). remove_at n arr) (omega (arith, f.index)) ∙ f.removed)

-- A window that is not in the order has no index.
pub find-none :
    (w : ℕ) (zs : List ℕ) (n : ℕ)
    → in_order w zs ≡ false
    → w < max_windows
    → z_order_find_index (zs ++ replicate n no_window) w ≡ none
unfolding z_order_find_index
find-none w zs n h small = elim (Option-cases (find_index_from 0 (zs ++ replicate n no_window) w)) [
  | inl e ↦ e
  | inr (k, e) ↦
      absurd (cc ((find_index_from-Found 0 _ w k e).present, in_order-append_none w zs n h small))
]

front_ne :
    (w : ℕ) (zs : List ℕ) (n : ℕ)
    → in_order w zs ≡ false
    → w ≢ no_window
    → (get_or (zs ++ replicate n no_window) 0 no_window == w) ≡ false
unfolding in_order replicate
front_ne w [] zero h ne = ground arith
front_ne w [] (suc n) h ne = ground arith
front_ne w (z ∷ zs) n h ne = ground arith

find_index-append :
    (i : ℕ) (w : ℕ) (xs ys : List ℕ)
    → in_order w xs ≡ true
    → find_index_from i (xs ++ ys) w ≡ find_index_from i xs w
unfolding find_index_from in_order
find_index-append i w [] ys h = absurd (cc h)
find_index-append i w (x ∷ xs) ys h = ground (arith, find_index-append (i + 1) w xs ys)

-- The index of a window of the order lies in the order.
index_inside :
    (w : ℕ) (zs : List ℕ) (n k : ℕ)
    → in_order w zs ≡ true
    → z_order_find_index (zs ++ replicate n no_window) w ≡ some k
    → (k < length zs) × (remove_at k zs ≡ erase w zs)
unfolding z_order_find_index
index_inside w zs n k h found =
    let f =
      find_index_from-Found 0 zs w k
        (sym (find_index-append 0 w zs (replicate n no_window) h) ∙ found) in
    (
      omega (arith, f.index, f.inside),
      ap (λ (t : ℕ). remove_at t zs) (omega (arith, f.index)) ∙ f.removed,
    )

replicate_pos : (n : ℕ) → 0 < n → replicate n no_window ≡ no_window ∷ replicate (n - 1) no_window
unfolding replicate
replicate_pos zero h = elim h [ ]
replicate_pos (suc n) h = ap (λ (t : ℕ). no_window ∷ replicate t no_window) (omega arith)

replicate_two :
    (n m : ℕ) → n ≡ m + 2 → replicate n no_window ≡ no_window ∷ (no_window ∷ replicate m no_window)
unfolding replicate
replicate_two zero m e = absurd (omega arith)
replicate_two (suc zero) m e = absurd (omega arith)
replicate_two (suc (suc n)) m e =
    ap (λ (t : ℕ). no_window ∷ (no_window ∷ replicate t no_window)) (omega arith)

module _ {S : Type 0} where
  -- The array, rewritten as `w` in front of the rest.
  Holds-moved :
      (w : ℕ) (d : Desktop S) (zs arr : List ℕ)
      → Holds d zs
      → in_order w zs ≡ true
      → arr ≡ w ∷ erase w d.window_z_order
      → Holds (record d { window_z_order = arr }) (w ∷ erase w zs)
  Holds-moved w d zs arr v h e = record {
    entries =
        let same_rest : max_windows - length zs ≡ max_windows - suc (length (erase w zs)) =
          omega (arith, length-erase w zs h) in
        e
        ∙ ap (λ r. w ∷ erase w r) v.entries
        ∙ ap (λ r. w ∷ r) (erase-append w zs (replicate (max_windows - length zs) no_window) h)
        ∙ ap (λ (n : ℕ). w ∷ (erase w zs ++ replicate n no_window)) same_rest;
    count = omega (arith, v.count, length-erase w zs h);
    fits = omega (arith, v.fits, length-erase w zs h);
    ids = (in_order-lt w zs v.ids h, All-erase w zs v.ids);
  }

  -- Moving a window of the order to the front returns; the others keep their order behind it, and
  -- nothing else changes.
  pub move_window_to_front_lem :
      (w : ℕ) (d : Desktop S) (zs : List ℕ)
      → Holds d zs
      → in_order w zs ≡ true
      → Returns (move_window_to_front w d) (λ d'.
        Holds d' (w ∷ erase w zs)
        × (d'.windows ≡ d.windows)
        × (d'.focused_window ≡ d.focused_window)
        × (d'.shared ≡ d.shared)
        × (d'.needs_redraw ≡ d.needs_redraw))
  unfolding move_window_to_front
  move_window_to_front_lem w d zs v h =
      let there : in_order w d.window_z_order ≡ true =
        rw v.entries (in_order-append w zs (replicate (max_windows - length zs) no_window) h) in
      let small : ltb w max_windows ≡ true = ground (arith, in_order-lt w zs v.ids h) in
      elim (Bool-cases (get_or d.window_z_order 0 no_window == w)) [
        | inl front ↦ rw front (
          Holds-moved w d zs d.window_z_order v h (erase-front w d.window_z_order front there),
          refl,
          refl,
          refl,
          refl,
        )
        | inr behind ↦
            let (k, found) = find-some w d.window_z_order there in
            rw (behind, small, found)
              (Holds-moved w d zs _ v h (moved w d.window_z_order k found), refl, refl, refl, refl)
      ]

  -- Moving any other window to the front stops the machine.
  pub move_window_to_front_panics :
      (w : ℕ) (d : Desktop S) (zs : List ℕ)
      → Holds d zs
      → in_order w zs ≡ false
      → w ≢ no_window
      → move_window_to_front w d ≡ panic
  unfolding move_window_to_front
  move_window_to_front_panics w d zs v h ne = elim (Bool-cases (ltb w max_windows)) [
    | inl small ↦
        rw
          (
            v.entries,
            front_ne w zs (max_windows - length zs) h ne,
            small,
            find-none w zs (max_windows - length zs) h (ground arith),
          )
          refl
    | inr large ↦ rw (v.entries, front_ne w zs (max_windows - length zs) h ne, large) refl
  ]

  -- The array after `z_order_remove_at` at the index of a window of the order.
  pub z_order_remove_at_lem :
      (w k : ℕ) (d : Desktop S) (zs : List ℕ)
      → Holds d zs
      → length zs < max_windows
      → in_order w zs ≡ true
      → z_order_find_index d.window_z_order w ≡ some k
      → Holds (z_order_remove_at k d) (erase w zs)
  unfolding z_order_remove_at
  z_order_remove_at_lem w k d zs v room h found =
      let f = index_inside w zs (max_windows - length zs) k h (rw (v.entries) at found) in
      let rest = replicate (max_windows - length zs - 1) no_window in
      let one : replicate (max_windows - length zs) no_window ≡ no_window ∷ rest =
        replicate_pos (max_windows - length zs) (omega arith) in
      let two : replicate (max_windows - length (erase w zs)) no_window
          ≡ no_window ∷ (no_window ∷ rest) =
        replicate_two (max_windows - length (erase w zs)) (max_windows - length zs - 1)
          (omega (arith, length-erase w zs h)) in
      record {
        entries =
            rw (v.entries, one, v.count, two)
              (shift_left-eq no_window k zs rest f.0
                ∙ ap (λ r. r ++ (no_window ∷ (no_window ∷ rest))) f.1);
        count = omega (arith, v.count, length-erase w zs h);
        fits = omega (arith, length-erase w zs h);
        ids = All-erase w zs v.ids;
      }
