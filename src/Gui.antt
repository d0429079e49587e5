-- ===== src/Gui.antt =====
-- kernel/gui.c: the pointer, clicks and the dragging of windows.
pub mod Pointer
pub mod Drag
mod Examples
use quad_os.Base.{
  ℕ, ◌+◌, ◌-◌, ◌%◌, ◌^◌, Bool, true, false, not, ◌&&◌, ◌||◌, Option, none, some, ◌==◌, leb,
  if◌then◌else◌, set, add32, sub32, u32_mod, ltb_ℤ, signed32, pos, Outcome, ok, ◌>>=◌,
}
use quad_os.Windows.{Window, Desktop, window_at, no_window, move_window_to_front}
use quad_os.Windows.Hit.{window_content_yoffset, find_window_from_pos, check_window_close}
use quad_os.Events.{Event, Events, event_mouse_click, event_mouse_move}
use quad_os.Events.Handle.{Input, handle_event}
use quad_os.Mouse.{Mouse}

-- `gui`, the static variables of `gui_handle_events` and those of kernel/windows.c about the pointer;
-- `gui.left_click` and `gui.right_click` are in `mouse`, `gui.needs_redraw` in the desktop. The
-- coordinates are the bit patterns of an `int32_t`.
pub record Gui (S D C : Type 0) : Type 0 where
  pub cursor_x : ℕ
  pub cursor_y : ℕ
  pub prev_cursor_x : ℕ
  pub prev_cursor_y : ℕ
  pub prev_mouse_left_button : Bool
  pub prev_mouse_right_button : Bool
  pub window_under_cursor_inside_content : Bool
  pub currently_dragging_window : ℕ
  pub mouse : Mouse
  pub input : Input S D C

-- `graphics.width` and `graphics.height`, and the test button.
pub record Screen : Type 0 where
  pub width : ℕ
  pub height : ℕ
  pub testbutton_x : ℕ
  pub testbutton_y : ℕ
  pub testbutton_w : ℕ
  pub testbutton_h : ℕ

abbrev pub window_content_xoffset : ℕ
window_content_xoffset = 1

-- An `int16_t`, converted to `int32_t`
abbrev pub extend16 : ℕ → ℕ
extend16 w = if leb (2 ^ 15) w then w + u32_mod - 2 ^ 16 else w

-- `a != b` on `bool`
abbrev pub differs : Bool → Bool → Bool
differs a b = if a then not b else b

-- One coordinate of the pointer: the movement is added, and the result is brought back on the
-- screen. A coordinate that is not negative is compared as unsigned.
unfoldable pub move_axis : ℕ → ℕ → ℕ → ℕ
move_axis extent cursor acc =
    let moved = add32 cursor acc in
    let above = if ltb_ℤ (signed32 moved) (pos 0) then 0 else moved in
    if leb extent above then sub32 extent 1 else above

-- `lo <= c && c < lo + size` on `int32_t`
abbrev pub within : ℕ → ℕ → ℕ → Bool
within lo size c =
    not (ltb_ℤ (signed32 c) (signed32 lo)) && ltb_ℤ (signed32 c) (signed32 (add32 lo size))

module _ {S D C : Type 0} (screen : Screen) where
  abbrev pub with_desktop : Gui S D C → Desktop D → Gui S D C
  with_desktop g d = record g { input = record g.input { desktop = d } }

  abbrev pub with_events : Gui S D C → Events S → Gui S D C
  with_events g e = record g { input = record g.input { events = e } }

  unfoldable pub move_cursor : Gui S D C → Gui S D C
  unfolding move_axis
  move_cursor g = record g {
    cursor_x = move_axis screen.width g.cursor_x g.mouse.x_acc;
    cursor_y = move_axis screen.height g.cursor_y g.mouse.y_acc;
    mouse = record g.mouse { x_acc = 0; y_acc = 0 };
  }

  -- The window under the pointer is looked up again when both coordinates have changed.
  unfoldable pub look_under_cursor : Gui S D C → Outcome (Gui S D C)
  look_under_cursor g =
      let looked = do
        (found, content) ←
            find_window_from_pos g.input.desktop (signed32 g.cursor_x) (signed32 g.cursor_y)
        let id : ℕ = elim found [ none ↦ no_window | some i ↦ i ]
        ok (record g {
          window_under_cursor_inside_content = content;
          input = record g.input { window_under_cursor = id };
        })
      in if not (g.cursor_x == g.prev_cursor_x) && not (g.cursor_y == g.prev_cursor_y)
        then looked
        else ok g

  -- An event of the mouse over the window `id`, in the coordinates of its content.
  abbrev pub content_event : ℕ → ℕ → ℕ → Gui S D C → Event
  content_event type data2 id g =
      let w = window_at g.input.desktop.windows id in
      record {
        type = type;
        data0 = sub32 (sub32 g.cursor_x (extend16 w.x)) window_content_xoffset;
        data1 = sub32 (sub32 g.cursor_y (extend16 w.y)) window_content_yoffset;
        data2 = data2;
      }

  -- The console (kernel/console.c), the end of a window (kernel/windows.c) and the tasks
  -- (kernel/tasks.c) are parameters; `create_user_task` loads the program of the test button.
  module _ (key_typed : ℕ → C → Outcome C) (destroy_window : ℕ → Desktop D → Outcome (Desktop D))
      (kill_task : ℕ → Events S → Outcome (Events S))
      (create_user_task : Events S → Outcome (Events S)) where
    -- A click on a window that is not on its content.
    unfoldable pub click_frame : ℕ → Gui S D C → Outcome (Gui S D C)
    click_frame id g =
        let w = window_at g.input.desktop.windows id in
        let close = do
          d ← destroy_window id g.input.desktop
          e ← kill_task w.owner_task_id g.input.events
          ok (record g {
            input = record g.input {
              events = e;
              desktop = record d { focused_window = no_window };
              window_under_cursor = no_window;
            };
          })
        in if check_window_close w (signed32 g.cursor_x) (signed32 g.cursor_y) then close else ok g

    unfoldable pub click_window : ℕ → Gui S D C → Outcome (Gui S D C)
    click_window id g = do
      d ← move_window_to_front id g.input.desktop
      let g₁ = with_desktop g d
      let click = (do
        input ← handle_event key_typed (content_event event_mouse_click 1 id g₁) g₁.input
        ok (record g₁ { input = input }))
      g₂ ← if g₁.window_under_cursor_inside_content then click else click_frame id g₁
      ok (record g₂ { currently_dragging_window = g₂.input.window_under_cursor })

    unfoldable pub handle_left_click : Gui S D C → Outcome (Gui S D C)
    handle_left_click g = do
      e ←
          if within screen.testbutton_x screen.testbutton_w g.cursor_x
            && within screen.testbutton_y screen.testbutton_h g.cursor_y
          then create_user_task g.input.events
          else ok g.input.events
      let g₁ = with_events g e
      let id = g₁.input.window_under_cursor
      let g₂ = with_desktop g₁ (record g₁.input.desktop { focused_window = id })
      g₃ ← if id == no_window then ok g₂ else click_window id g₂
      ok (with_desktop g₃ (record g₃.input.desktop { needs_redraw = true }))

    -- A change of the buttons. A right click is written to the log.
    unfoldable pub handle_buttons : Gui S D C → Outcome (Gui S D C)
    handle_buttons g =
        let left = g.mouse.left_click in
        let right = g.mouse.right_click in
        let changed = do
          g₁ ←
              if left
              then handle_left_click g
              else if right
              then ok g
              else ok (record g { currently_dragging_window = no_window })
          ok (record g₁ { prev_mouse_left_button = left; prev_mouse_right_button = right })
        in if differs g.prev_mouse_left_button left || differs g.prev_mouse_right_button right
          then changed
          else ok g

    -- The pointer has moved by (dx, dy): the window that is dragged moves along, or the one under the
    -- pointer gets an event.
    unfoldable pub handle_motion : ℕ → ℕ → Gui S D C → Outcome (Gui S D C)
    handle_motion dx dy g =
        let d = record g.input.desktop { needs_redraw = true } in
        let drag = g.currently_dragging_window in
        let w = window_at d.windows drag in
        let dragged = with_desktop g (record d {
          windows =
              set d.windows drag (record w { x = (w.x + dx) % 2 ^ 16; y = (w.y + dy) % 2 ^ 16 });
        }) in
        let g₁ = with_desktop g d in
        let id = g.input.window_under_cursor in
        let move = do
          input ← handle_event key_typed (content_event event_mouse_move 0 id g₁) g₁.input
          ok (record g₁ { input = input })
        in do
          g₂ ←
              if not (drag == no_window)
              then ok dragged
              else if g.window_under_cursor_inside_content
              then move
              else ok g₁
          ok (record g₂ { prev_cursor_x = g₂.cursor_x; prev_cursor_y = g₂.cursor_y })

    unfoldable pub gui_handle_events : Gui S D C → Outcome (Gui S D C)
    gui_handle_events g = do
      g₁ ← look_under_cursor (move_cursor g)
      g₂ ← handle_buttons g₁
      let g₃ = record g₂ {
        mouse = record g₂.mouse {
          left_click = g₂.mouse.left_button;
          right_click = g₂.mouse.right_button;
        };
      }
      let dx = sub32 g₃.cursor_x g₃.prev_cursor_x
      let dy = sub32 g₃.cursor_y g₃.prev_cursor_y
      if not (dx == 0) || not (dy == 0) then handle_motion dx dy g₃ else ok g₃
