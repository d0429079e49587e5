-- ===== src/Windows/Hit.antt =====
-- kernel/windows.c: which window, and which part of it, lies under the mouse pointer.
pub mod Buttons
pub mod Search
use quad_os.Base.{
  ℕ, ◌+◌, ◌<◌, ◌≡◌, ◌≢◌, ◌↔◌, refl, Bool, true, false, not, List, [], ◌∷◌, Option, none, some, ◌==◌,
  if◌then◌else◌, Bool-cases, inl, inr, take, All, ℤ, pos, pos_part, neg_part, ◌+ℤ◌, ◌-ℤ◌, +ℤ_parts,
  -ℤ_parts, ◌≤ℤ◌, ltb_ℤ, signed16, Outcome, ok, panic, arith,
}
use quad_os.Windows.{Window, Desktop, get_window, window_at, max_windows, window_title_bar_height}

abbrev pub close_button_width : ℕ
close_button_width = 18

abbrev pub close_button_height : ℕ
close_button_height = 18

abbrev pub grip_size : ℕ
grip_size = 20

abbrev pub window_content_yoffset : ℕ
window_content_yoffset = 20

unfoldable pub close_button_x : Window → ℤ
close_button_x w = signed16 w.x +ℤ signed16 w.width +ℤ pos 2 -ℤ pos close_button_width -ℤ pos 1

unfoldable pub close_button_y : Window → ℤ
close_button_y w = signed16 w.y +ℤ pos 1

unfoldable pub check_window_close : Window → ℤ → ℤ → Bool
check_window_close w x y =
    if ltb_ℤ x (close_button_x w)
    then false
    else if ltb_ℤ y (close_button_y w)
    then false
    else if not (ltb_ℤ x (close_button_x w +ℤ pos close_button_width))
    then false
    else if not (ltb_ℤ y (close_button_y w +ℤ pos close_button_height))
    then false
    else true

unfoldable pub resize_grip_x : Window → ℤ
resize_grip_x w = signed16 w.x +ℤ signed16 w.width -ℤ pos grip_size

unfoldable pub resize_grip_y : Window → ℤ
resize_grip_y w = signed16 w.y +ℤ signed16 w.height +ℤ pos window_title_bar_height -ℤ pos grip_size

unfoldable pub check_window_resize : Window → ℤ → ℤ → Bool
check_window_resize w x y =
    if ltb_ℤ x (resize_grip_x w)
    then false
    else if ltb_ℤ y (resize_grip_y w)
    then false
    else if not (ltb_ℤ x (resize_grip_x w +ℤ pos grip_size))
    then false
    else if not (ltb_ℤ y (resize_grip_y w +ℤ pos grip_size))
    then false
    else true

-- The tests of `find_window_from_pos` that make it go on to the next window.
unfoldable pub skips : Window → ℤ → ℤ → Bool
skips w x y =
    if w.state == 0
    then true
    else if ltb_ℤ x (signed16 w.x)
    then true
    else if ltb_ℤ y (signed16 w.y)
    then true
    else if ltb_ℤ (signed16 w.x +ℤ signed16 w.actual_width) x
    then true
    else ltb_ℤ (signed16 w.y +ℤ signed16 w.actual_height) y

-- The loop over the order, from front to back: the window found, and whether the pointer is inside
-- its content. An id that is no window's is followed through a null pointer.
unfoldable pub find_from_pos : List Window → List ℕ → ℤ → ℤ → Outcome (Option ℕ × Bool)
find_from_pos ws [] x y = ok (none, false)
find_from_pos ws (id ∷ zs) x y =
    let rest = find_from_pos ws zs x y in
    elim (get_window ws id) [
      | none ↦ panic
      | some w ↦
          if skips w x y
          then rest
          else ok (some id, ltb_ℤ (pos window_content_yoffset) (y -ℤ signed16 w.y))
    ]

module _ {S : Type 0} where
  unfoldable pub find_window_from_pos : Desktop S → ℤ → ℤ → Outcome (Option ℕ × Bool)
  unfolding find_from_pos
  find_window_from_pos d x y = find_from_pos d.windows (take d.z_order_length d.window_z_order) x y
