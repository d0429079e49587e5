-- ===== src/Gui/Drag.antt =====
-- kernel/gui.c, `gui_handle_events`: a window that is dragged follows the pointer.
use quad_os.Base.{
  ℕ, ◌+◌, ◌%◌, ◌^◌, ◌≤◌, ◌<◌, ◌≡◌, ◌≢◌, inl, inr, refl, sym, ap, ◌∙◌, Bool, true, false, not, ◌&&◌,
  ◌||◌, Bool-cases, none, some, ◌==◌, length, set, take, get_or-set_self, get_or-set_ne, All,
  if◌then◌else◌, sub32, signed32, Outcome, ok, Returns, arith,
}
use quad_os.Windows.{Window, Desktop, window_at, zero_window, no_window, max_windows}
use quad_os.Windows.Hit.Search.{find_window_from_pos-Topmost}
use quad_os.Events.{Events}
use quad_os.Gui.{
  Gui, Screen, differs, move_cursor, look_under_cursor, handle_buttons, handle_motion,
  gui_handle_events,
}
use quad_os.Gui.Pointer.{move_axis-inside}

-- `g'` is `g` after a round in which the window `id` is dragged: it has moved as far as the pointer,
-- modulo 2^16; the other windows, the tasks and the console are as before, and the movement is used up.
pub record Dragged {S D C : Type 0} (screen : Screen) (id : ℕ) (g g' : Gui S D C) : Type 0 where
  pub moved_x :
      ((window_at g'.input.desktop.windows id).x + g.prev_cursor_x) % 2 ^ 16
      ≡ ((window_at g.input.desktop.windows id).x + g'.cursor_x) % 2 ^ 16
  pub moved_y :
      ((window_at g'.input.desktop.windows id).y + g.prev_cursor_y) % 2 ^ 16
      ≡ ((window_at g.input.desktop.windows id).y + g'.cursor_y) % 2 ^ 16
  pub others :
      (j : ℕ) → j ≢ id → window_at g'.input.desktop.windows j ≡ window_at g.input.desktop.windows j
  pub on_screen : (g'.cursor_x < screen.width) × (g'.cursor_y < screen.height)
  pub caught_up : (g'.prev_cursor_x ≡ g'.cursor_x) × (g'.prev_cursor_y ≡ g'.cursor_y)
  pub used_up : (g'.mouse.x_acc ≡ 0) × (g'.mouse.y_acc ≡ 0)
  pub same_tasks : g'.input.events ≡ g.input.events
  pub same_console : g'.input.console ≡ g.input.console
  pub still_dragging : g'.currently_dragging_window ≡ id

module _ {S D C : Type 0} (screen : Screen) where
  abbrev with_under : Gui S D C → ℕ → Bool → Gui S D C
  with_under g id content = record g {
    window_under_cursor_inside_content = content;
    input = record g.input { window_under_cursor = id };
  }

  look_under_cursor-eq :
      (g : Gui S D C)
      → All
          (λ z. z < max_windows)
          (take g.input.desktop.z_order_length g.input.desktop.window_z_order)
      → (id : ℕ) × (content : Bool) × (look_under_cursor screen g ≡ ok (with_under g id content))
  unfolding look_under_cursor
  look_under_cursor-eq g ids =
      let (found, content, at, _) =
        find_window_from_pos-Topmost g.input.desktop (signed32 g.cursor_x) (signed32 g.cursor_y)
          ids in
      elim (Bool-cases
        (not (g.cursor_x == g.prev_cursor_x) && not (g.cursor_y == g.prev_cursor_y))) [
          | inl e ↦ (elim found [ none ↦ no_window | some i ↦ i ], content, simp (e, at) refl)
          | inr e ↦ (g.input.window_under_cursor, g.window_under_cursor_inside_content, simp e refl)
        ]

  module _ (key_typed : ℕ → C → Outcome C) (destroy_window : ℕ → Desktop D → Outcome (Desktop D))
      (kill_task : ℕ → Events S → Outcome (Events S))
      (create_user_task : Events S → Outcome (Events S)) (g : Gui S D C) where
    differs-same : (a b : Bool) → a ≡ b → differs a b ≡ false
    differs-same true b e = ground (arith, e)
    differs-same false b e = sym e

    handle_buttons-same :
        (h : Gui S D C)
        → h.prev_mouse_left_button ≡ h.mouse.left_click
        → h.prev_mouse_right_button ≡ h.mouse.right_click
        → handle_buttons screen key_typed destroy_window kill_task create_user_task h ≡ ok h
    unfolding handle_buttons
    handle_buttons-same h l r = simp (differs-same _ _ l, differs-same _ _ r) refl

    -- The dragged window moved by (dx, dy).
    abbrev dragged : ℕ → ℕ → Gui S D C → Gui S D C
    dragged dx dy h =
        let id = h.currently_dragging_window in
        let w = window_at h.input.desktop.windows id in
        record h {
          prev_cursor_x = h.cursor_x;
          prev_cursor_y = h.cursor_y;
          input = record h.input {
            desktop = record h.input.desktop {
              needs_redraw = true;
              windows =
                  set h.input.desktop.windows id
                    (record w { x = (w.x + dx) % 2 ^ 16; y = (w.y + dy) % 2 ^ 16 });
            };
          };
        }

    handle_motion-dragged :
        (dx dy : ℕ) (h : Gui S D C)
        → h.currently_dragging_window ≢ no_window
        → handle_motion screen key_typed destroy_window kill_task create_user_task dx dy h
          ≡ ok (dragged dx dy h)
    unfolding handle_motion
    handle_motion-dragged dx dy h drags =
        let some_window : (h.currently_dragging_window == no_window) ≡ false =
          ground (arith, drags) in
        simp some_window refl

    module _ (wide : screen.width ≤ 2 ^ 31) (high : screen.height ≤ 2 ^ 31)
        (was_x : g.prev_cursor_x < screen.width) (was_y : g.prev_cursor_y < screen.height)
        (ids : All
          (λ z. z < max_windows)
          (take g.input.desktop.z_order_length g.input.desktop.window_z_order))
        (drags : g.currently_dragging_window ≢ no_window)
        (inside : g.currently_dragging_window < length g.input.desktop.windows) where
      -- The state in which `gui_handle_events` looks at the movement.
      abbrev looked_at : ℕ → Bool → Gui S D C
      looked_at id content =
          let h = with_under (move_cursor screen g) id content in
          record h {
            mouse = record h.mouse {
              left_click = h.mouse.left_button;
              right_click = h.mouse.right_button;
            };
          }

      module _ (id : ℕ) (content : Bool) where
        abbrev h : Gui S D C
        h = looked_at id content

        abbrev dx : ℕ
        dx = sub32 h.cursor_x h.prev_cursor_x

        abbrev dy : ℕ
        dy = sub32 h.cursor_y h.prev_cursor_y

        on_screen-h : (h.cursor_x < screen.width) × (h.cursor_y < screen.height)
        unfolding move_cursor
        on_screen-h = (
          move_axis-inside screen.width (omega arith) wide g.cursor_x g.mouse.x_acc,
          move_axis-inside screen.height (omega arith) high g.cursor_y g.mouse.y_acc,
        )

        rested : dx ≡ 0 → dy ≡ 0 → Dragged screen g.currently_dragging_window g h
        unfolding move_cursor
        rested no_x no_y =
            let on = on_screen-h in
            let same_x : g.prev_cursor_x ≡ h.cursor_x = omega (arith, on.0, no_x) in
            let same_y : g.prev_cursor_y ≡ h.cursor_y = omega (arith, on.1, no_y) in
            record {
              moved_x = omega (arith, same_x);
              moved_y = omega (arith, same_y);
              others = λ j ne. refl;
              on_screen = on;
              caught_up = (same_x, same_y);
              used_up = (refl, refl);
              same_tasks = refl;
              same_console = refl;
              still_dragging = refl;
            }

        followed : Dragged screen g.currently_dragging_window g (dragged dx dy h)
        unfolding move_cursor
        followed =
            let on = on_screen-h in
            let ws = g.input.desktop.windows in
            let drag = g.currently_dragging_window in
            let w = window_at ws drag in
            let w' : Window = record w { x = (w.x + dx) % 2 ^ 16; y = (w.y + dy) % 2 ^ 16 } in
            let here : window_at (set ws drag w') drag ≡ w' =
              get_or-set_self ws drag w' zero_window inside in
            record {
              moved_x =
                  ap (λ (v : Window). (v.x + g.prev_cursor_x) % 2 ^ 16) here ∙ omega (arith, on.0);
              moved_y =
                  ap (λ (v : Window). (v.y + g.prev_cursor_y) % 2 ^ 16) here ∙ omega (arith, on.1);
              others = λ j ne. get_or-set_ne ws drag j w' zero_window (λ e. ne (sym e));
              on_screen = on;
              caught_up = (refl, refl);
              used_up = (refl, refl);
              same_tasks = refl;
              same_console = refl;
              still_dragging = refl;
            }

        decided :
            Returns
              (if not (dx == 0) || not (dy == 0)
                then handle_motion screen key_typed destroy_window kill_task create_user_task dx dy
                    h
                else ok h)
              (Dragged screen g.currently_dragging_window g)
        unfolding move_cursor
        decided = elim (Bool-cases (not (dx == 0) || not (dy == 0))) [
          | inl e ↦ simp (e, handle_motion-dragged dx dy h drags) followed
          | inr e ↦ simp e (rested (ground (arith, e)) (ground (arith, e)))
        ]

      -- On a screen of at most 2^31 pixels each way, when the pointer was on the screen after the round
      -- before and the windows' order names slots, a round in which no button has changed and a window
      -- of the table is dragged returns: the window has moved as far as the pointer, modulo 2^16, the
      -- pointer is on the screen, its movement is used up, and the other windows, the tasks and the
      -- console are as before.
      pub gui_handle_events-Dragged :
          g.prev_mouse_left_button ≡ g.mouse.left_click
          → g.prev_mouse_right_button ≡ g.mouse.right_click
          → Returns
              (gui_handle_events screen key_typed destroy_window kill_task create_user_task g)
              (Dragged screen g.currently_dragging_window g)
      unfolding gui_handle_events move_cursor
      gui_handle_events-Dragged l r =
          let (id, content, looked) = look_under_cursor-eq (move_cursor screen g) ids in
          simp (looked, handle_buttons-same (with_under (move_cursor screen g) id content) l r)
            (decided id content)
