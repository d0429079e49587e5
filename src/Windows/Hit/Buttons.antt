-- ===== src/Windows/Hit/Buttons.antt =====
-- kernel/windows.c: the boxes of the buttons of a window.
use quad_os.Base.{
  ◌+◌, ◌<◌, ◌≡◌, ◌↔◌, Bool, true, false, not, if◌then◌else◌, ℤ, pos, pos_part, neg_part, ◌+ℤ◌, ◌-ℤ◌,
  +ℤ_parts, -ℤ_parts, ◌≤ℤ◌, ltb_ℤ, ltb_ℤ-false, ltb_ℤ-true, signed16, arith,
}
use quad_os.Windows.{Window}
use quad_os.Windows.Hit.{close_button_x, close_button_y, check_window_close}

-- A ladder of four tests, as their conjunction.
box_test :
    (a b c d : Bool)
    → ((if a
          then false
          else if b
          then false
          else if not c
          then false
          else if not d
          then false
          else true)
        ≡ true)
      ↔ ((a ≡ false) × (b ≡ false) × (c ≡ true) × (d ≡ true))
box_test a b c d = (λ h. ground arith, λ h. ground arith)

-- The ladder of a box of pixels that begins at (l, t) and ends before (r, b).
box_iff :
    (l t r b x y : ℤ)
    → ((if ltb_ℤ x l
          then false
          else if ltb_ℤ y t
          then false
          else if not (ltb_ℤ x r)
          then false
          else if not (ltb_ℤ y b)
          then false
          else true)
        ≡ true)
      ↔ ((l ≤ℤ x)
          × (t ≤ℤ y)
          × (pos_part x + neg_part r < pos_part r + neg_part x)
          × (pos_part y + neg_part b < pos_part b + neg_part y))
box_iff l t r b x y = (
  λ h.
      let k = (box_test (ltb_ℤ x l) (ltb_ℤ y t) (ltb_ℤ x r) (ltb_ℤ y b)).0 h in
      (
        (ltb_ℤ-false x l).0 k.0,
        (ltb_ℤ-false y t).0 k.1,
        (ltb_ℤ-true x r).0 k.2,
        (ltb_ℤ-true y b).0 k.3,
      ),
  λ h. (box_test (ltb_ℤ x l) (ltb_ℤ y t) (ltb_ℤ x r) (ltb_ℤ y b)).1 (
    (ltb_ℤ-false x l).1 h.0,
    (ltb_ℤ-false y t).1 h.1,
    (ltb_ℤ-true x r).1 h.2,
    (ltb_ℤ-true y b).1 h.3,
  ),
)

close_left : (l n : ℤ) (x : ℤ) → (l +ℤ n +ℤ pos 2 -ℤ pos 18 -ℤ pos 1 ≤ℤ x) ↔ (l +ℤ n ≤ℤ x +ℤ pos 17)
close_left l n x =
    let m = l +ℤ n in
    let a = +ℤ_parts m (pos 2) in
    let b = -ℤ_parts (m +ℤ pos 2) (pos 18) in
    let c = -ℤ_parts (m +ℤ pos 2 -ℤ pos 18) (pos 1) in
    let d = +ℤ_parts x (pos 17) in (λ h. omega arith, λ h. omega arith)

close_right :
    (l n : ℤ) (x : ℤ)
    → (pos_part x + neg_part (l +ℤ n +ℤ pos 2 -ℤ pos 18 -ℤ pos 1 +ℤ pos 18)
        < pos_part (l +ℤ n +ℤ pos 2 -ℤ pos 18 -ℤ pos 1 +ℤ pos 18) + neg_part x)
      ↔ (x ≤ℤ l +ℤ n)
close_right l n x =
    let m = l +ℤ n in
    let a = +ℤ_parts m (pos 2) in
    let b = -ℤ_parts (m +ℤ pos 2) (pos 18) in
    let c = -ℤ_parts (m +ℤ pos 2 -ℤ pos 18) (pos 1) in
    let d = +ℤ_parts (m +ℤ pos 2 -ℤ pos 18 -ℤ pos 1) (pos 18) in
    (λ h. omega arith, λ h. omega arith)

close_bottom :
    (t y : ℤ)
    → (pos_part y + neg_part (t +ℤ pos 1 +ℤ pos 18) < pos_part (t +ℤ pos 1 +ℤ pos 18) + neg_part y)
      ↔ (y ≤ℤ t +ℤ pos 18)
close_bottom t y =
    let a = +ℤ_parts t (pos 1) in
    let b = +ℤ_parts (t +ℤ pos 1) (pos 18) in
    let c = +ℤ_parts t (pos 18) in (λ h. omega arith, λ h. omega arith)

-- The close button is reported under the pointer exactly in a box of 18 by 18 pixels, which begins
-- one pixel below the top edge of the window and whose last column is the last one of the content.
pub check_window_close_iff :
    (w : Window) (x y : ℤ)
    → (check_window_close w x y ≡ true) ↔ (
        (signed16 w.x +ℤ signed16 w.width ≤ℤ x +ℤ pos 17)
        × (x ≤ℤ signed16 w.x +ℤ signed16 w.width)
        × (signed16 w.y +ℤ pos 1 ≤ℤ y)
        × (y ≤ℤ signed16 w.y +ℤ pos 18))
unfolding check_window_close close_button_x close_button_y
check_window_close_iff w x y =
    let l = signed16 w.x in
    let n = signed16 w.width in
    let t = signed16 w.y in
    let c = l +ℤ n +ℤ pos 2 -ℤ pos 18 -ℤ pos 1 in
    let box = box_iff c (t +ℤ pos 1) (c +ℤ pos 18) (t +ℤ pos 1 +ℤ pos 18) x y in
    (
      λ h.
          let k = box.0 h in
          ((close_left l n x).0 k.0, (close_right l n x).0 k.2, k.1, (close_bottom t y).0 k.3),
      λ h.
          box.1
            ((close_left l n x).1 h.0, h.2, (close_right l n x).1 h.1, (close_bottom t y).1 h.3),
    )
