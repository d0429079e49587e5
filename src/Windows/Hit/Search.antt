-- ===== src/Windows/Hit/Search.antt =====
-- kernel/windows.c: the search finds the first window in front that covers the point.
use quad_os.Base.{
  ℕ, ◌<◌, ◌≡◌, ◌≢◌, ◌↔◌, refl, Bool, true, false, List, [], ◌∷◌, Option, none, some, ◌==◌,
  if◌then◌else◌, Bool-cases, inl, inr, take, All, ℤ, pos, ◌+ℤ◌, ◌-ℤ◌, ◌≤ℤ◌, ltb_ℤ, ltb_ℤ-false,
  signed16, ok, arith,
}
use quad_os.Windows.{Window, Desktop, get_window, window_at, max_windows}
use quad_os.Windows.Hit.{window_content_yoffset, skips, find_from_pos, find_window_from_pos}

-- The point lies in the rectangle of a window in use, its lower and right edges included.
abbrev pub Covers : Window → ℤ → ℤ → Type 0
Covers w x y =
    (w.state ≢ 0)
    × (signed16 w.x ≤ℤ x)
    × (x ≤ℤ signed16 w.x +ℤ signed16 w.actual_width)
    × (signed16 w.y ≤ℤ y)
    × (y ≤ℤ signed16 w.y +ℤ signed16 w.actual_height)

-- A ladder of five tests, as their conjunction.
all_fail :
    (a b c d e : Bool)
    → ((if a then true else if b then true else if c then true else if d then true else e) ≡ false)
      ↔ ((a ≡ false) × (b ≡ false) × (c ≡ false) × (d ≡ false) × (e ≡ false))
all_fail a b c d e = (λ h. ground arith, λ h. ground arith)

pub skips_iff : (w : Window) (x y : ℤ) → (skips w x y ≡ false) ↔ Covers w x y
unfolding skips
skips_iff w x y =
    let l = signed16 w.x in
    let t = signed16 w.y in
    let r = l +ℤ signed16 w.actual_width in
    let b = t +ℤ signed16 w.actual_height in
    let ladder = all_fail (w.state == 0) (ltb_ℤ x l) (ltb_ℤ y t) (ltb_ℤ r x) (ltb_ℤ b y) in
    (
      λ h.
          let k = ladder.0 h in
          (
            used_iff.0 k.0,
            (ltb_ℤ-false x l).0 k.1,
            (ltb_ℤ-false r x).0 k.3,
            (ltb_ℤ-false y t).0 k.2,
            (ltb_ℤ-false b y).0 k.4,
          ),
      λ h. ladder.1 (
        used_iff.1 h.0,
        (ltb_ℤ-false x l).1 h.1,
        (ltb_ℤ-false y t).1 h.3,
        (ltb_ℤ-false r x).1 h.2,
        (ltb_ℤ-false b y).1 h.4,
      ),
    )
  where
    used_iff : ((w.state == 0) ≡ false) ↔ (w.state ≢ 0)
    used_iff = (λ h. ground arith, λ h. ground arith)

-- The window that a search of the order must find: the first that covers the point, none when none
-- does.
pub data Topmost (ws : List Window) (x y : ℤ) : List ℕ → Option ℕ → Type 0 where
  nothing_there : Topmost ws x y [] none
  here :
      {id : ℕ}
      → {zs : List ℕ} → id < max_windows
      → Covers (window_at ws id) x y
      → Topmost ws x y (id ∷ zs) (some id)
  behind :
      {id : ℕ}
      → {zs : List ℕ} → {found : Option ℕ} → id < max_windows
      → ¬ Covers (window_at ws id) x y
      → Topmost ws x y zs found
      → Topmost ws x y (id ∷ zs) found

abbrev pub Sees : List Window → ℤ → ℤ → List ℕ → Type 0
Sees ws x y zs =
    (found : Option ℕ) × (content : Bool) × (find_from_pos ws zs x y ≡ ok (found, content))
    × Topmost ws x y zs found

get_window-in :
    (ws : List Window) (id : ℕ) → id < max_windows → get_window ws id ≡ some (window_at ws id)
unfolding get_window
get_window-in ws id h = ground arith

find_from_pos-step :
    (ws : List Window) (id : ℕ) (zs : List ℕ) (x y : ℤ)
    → id < max_windows
    → find_from_pos ws (id ∷ zs) x y ≡ (
        if skips (window_at ws id) x y
        then find_from_pos ws zs x y
        else ok (some id, ltb_ℤ (pos window_content_yoffset) (y -ℤ signed16 (window_at ws id).y)))
unfolding find_from_pos
find_from_pos-step ws id zs x y h = rw (get_window-in ws id h, find_from_pos) refl

find_from_pos-Sees :
    (ws : List Window) (zs : List ℕ) (x y : ℤ) → All (λ z. z < max_windows) zs → Sees ws x y zs
unfolding find_from_pos
find_from_pos-Sees ws [] x y h = (none, false, refl, nothing_there)
find_from_pos-Sees ws (id ∷ zs) x y h =
    let rest = find_from_pos-Sees ws zs x y h.1 in
    let w = window_at ws id in
    elim (Bool-cases (skips w x y)) [
      | inl t ↦ (
        rest.0,
        rest.1,
        rw (find_from_pos-step ws id zs x y h.0, t) rest.2,
        behind h.0 (λ c. absurd (cc (t, (skips_iff w x y).1 c))) rest.3,
      )
      | inr f ↦ (
        some id,
        ltb_ℤ (pos window_content_yoffset) (y -ℤ signed16 w.y),
        rw (find_from_pos-step ws id zs x y h.0, f) refl,
        here h.0 ((skips_iff w x y).0 f),
      )
    ]

module _ {S : Type 0} where
  -- When every id in the order is that of a slot, `find_window_from_pos` ends and answers with the
  -- first window of the order, from front to back, that is in use and whose rectangle holds the
  -- point, its far edges included; it answers none when no window does.
  pub find_window_from_pos-Topmost :
      (d : Desktop S) (x y : ℤ)
      → All (λ z. z < max_windows) (take d.z_order_length d.window_z_order)
      → (found : Option ℕ) × (content : Bool) × (find_window_from_pos d x y ≡ ok (found, content))
        × Topmost d.windows x y (take d.z_order_length d.window_z_order) found
  unfolding find_window_from_pos
  find_window_from_pos-Topmost d x y h =
      find_from_pos-Sees d.windows (take d.z_order_length d.window_z_order) x y h
