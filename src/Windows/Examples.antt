-- ===== src/Windows/Examples.antt =====
-- kernel/windows.c on a table of 64 slots with two windows.
use quad_os.Base.{
  ℕ, zero, suc, ◌+◌, ◌≡◌, ◌↔◌, ◌⊎◌, refl, Bool, true, false, List, [], ◌∷◌, Option, replicate, take,
  set, length, pos, ◌+ℤ◌, ◌≤ℤ◌, signed16, ok, Delivers, Returns, arith, not, ◌==◌, length-replicate,
  get_or-replicate,
}
use quad_os.Windows.{
  Window, Desktop, SharedMem, zero_window, max_windows, no_window, window_at, move_window_to_front,
  create_window, destroy_window,
}
use quad_os.Windows.Order.{Holds, in_order, erase, move_window_to_front_lem}
use quad_os.Windows.Life.{IsDesktop, destroy_window-IsDesktop}
use quad_os.Windows.Slots.{live_count, occurrences}
use quad_os.Windows.Create.{Created, create_window-Created}
use quad_os.Windows.Hit.{check_window_close, find_window_from_pos}
use quad_os.Windows.Hit.Buttons.{check_window_close_iff}
use quad_os.Windows.Hit.Search.{Topmost, find_window_from_pos-Topmost}

-- Objects are numbered from 1 and mapped one after the other; the state is the number of objects and
-- the next address.
abbrev numbered : SharedMem
numbered = record {
  State = ℕ × ℕ;
  Exhausted = ⊥;
  create = λ size task s. ok (s.0 + 1, (s.0 + 1, s.1));
  map = λ id task s. ok (s.1, (s.0, s.1 + 4096));
  destroy = λ id s. ok s;
  create_steady = λ size task s. tt;
  map_steady = λ id task s. tt;
  destroy_steady = λ id s. tt;
}

abbrev back_window : Window
back_window = record zero_window {
  state = 1;
  x = 30;
  y = 50;
  width = 200;
  height = 100;
  actual_width = 202;
  actual_height = 121;
}

abbrev front_window : Window
front_window = record back_window { x = 70; y = 85 }

-- Window 1 in front of window 0.
abbrev two : Desktop (ℕ × ℕ)
two = record {
  windows = back_window ∷ (front_window ∷ replicate 62 zero_window);
  window_z_order = 1 ∷ (0 ∷ replicate 62 no_window);
  z_order_length = 2;
  focused_window = 1;
  needs_redraw = false;
  shared = (2, 0xd000_0000);
}

abbrev order : List ℕ
order = 1 ∷ (0 ∷ [])

two-Holds : Holds two order
two-Holds = record {
  entries = refl;
  count = refl;
  fits = omega arith;
  ids = (omega arith, (omega arith, tt));
}

abbrev boot : Desktop (ℕ × ℕ)
boot = record two { z_order_length = 0; focused_window = no_window }

move_window_to_front_lem_example : Returns (move_window_to_front 0 two) (λ d'.
    Holds d' (0 ∷ erase 0 order)
    × (d'.windows ≡ two.windows)
    × (d'.focused_window ≡ 1)
    × (d'.shared ≡ two.shared)
    × (d'.needs_redraw ≡ false))
unfolding in_order
move_window_to_front_lem_example = move_window_to_front_lem 0 two order two-Holds refl

live_tail : (n : ℕ) → live_count (replicate n zero_window) ≡ 0
unfolding live_count replicate zero_window
live_tail zero = refl
live_tail (suc n) = omega (arith, live_tail n)

listed : (id : ℕ) → in_order id order ≡ not ((window_at two.windows id).state == 0)
unfolding in_order zero_window
listed zero = refl
listed (suc zero) = refl
listed (suc (suc id)) =
    let empty : window_at (replicate 62 zero_window) id ≡ zero_window =
      get_or-replicate 62 id zero_window in
    rw empty (ground arith)

two-IsDesktop : IsDesktop two order
unfolding in_order occurrences live_count zero_window
two-IsDesktop = record {
  holds = two-Holds;
  table = omega (arith, length-replicate {0} 62 zero_window);
  counted = omega (arith, live_tail 62);
  live = λ id lt. listed id;
  once = λ id. ground arith;
}

destroy_window-IsDesktop_example : Delivers ⊥ (destroy_window numbered 1 two) (λ d'.
    IsDesktop d' (erase 1 order)
    × (d'.windows ≡ set two.windows 1 zero_window)
    × (d'.focused_window ≡ 1))
unfolding in_order
destroy_window-IsDesktop_example =
    destroy_window-IsDesktop numbered 1 two order two-IsDesktop refl (omega arith) (omega arith)

create_window-Created_example :
    Delivers
      (⊥ ⊎ (length order ≡ max_windows))
      (create_window numbered 3 320 200 2 two)
      (λ r. Created numbered 320 200 2 3 two order r.0 r.1)
create_window-Created_example = create_window-Created numbered 3 320 200 2 two order two-IsDesktop

check_window_close_iff_example : (check_window_close back_window (pos 220) (pos 55) ≡ true) ↔ (
    (signed16 30 +ℤ signed16 200 ≤ℤ pos 220 +ℤ pos 17)
    × (pos 220 ≤ℤ signed16 30 +ℤ signed16 200)
    × (signed16 50 +ℤ pos 1 ≤ℤ pos 55)
    × (pos 55 ≤ℤ signed16 50 +ℤ pos 18))
check_window_close_iff_example = check_window_close_iff back_window (pos 220) (pos 55)

find_window_from_pos-Topmost_example :
    (found : Option ℕ) × (content : Bool) × (find_window_from_pos two (pos 100) (pos 100)
      ≡ ok (found, content))
    × Topmost two.windows (pos 100) (pos 100) (take 2 two.window_z_order) found
unfolding take
find_window_from_pos-Topmost_example =
    find_window_from_pos-Topmost two (pos 100) (pos 100) (omega arith, (omega arith, tt))
