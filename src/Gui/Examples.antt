-- ===== src/Gui/Examples.antt =====
-- kernel/gui.c: one window that is dragged to the right edge of a screen of 640 by 480 pixels.
use quad_os.Base.{
  ℕ, refl, true, false, [], ◌∷◌, pos, ◌+ℤ◌, signed32, take, Outcome, ok, Returns, arith,
}
use quad_os.Tasks.{no_task}
use quad_os.Windows.{Window, Desktop, zero_window}
use quad_os.Events.{Events, empty_buffer}
use quad_os.Mouse.{Mouse}
use quad_os.Gui.{Gui, Screen, move_axis, gui_handle_events}
use quad_os.Gui.Pointer.{Nearest, move_axis-Nearest}
use quad_os.Gui.Drag.{Dragged, gui_handle_events-Dragged}

abbrev screen : Screen
screen = record {
  width = 640;
  height = 480;
  testbutton_x = 540;
  testbutton_y = 380;
  testbutton_w = 50;
  testbutton_h = 50;
}

-- The left button is down, and the mouse has moved by (100, -3).
abbrev held : Mouse
held = record {
  x_acc = 100;
  y_acc = 0xffff_fffd;
  left_button = true;
  right_button = false;
  buffer = 0 ∷ (0 ∷ (0 ∷ []));
  buffer_index = 0;
  left_click = true;
  right_click = false;
}

abbrev window : Window
window = record zero_window {
  state = 1;
  x = 500;
  y = 90;
  width = 100;
  height = 50;
  actual_width = 102;
  actual_height = 71;
}

abbrev no_events : Events Unit
no_events = record {
  sched = record {
    tasks = [];
    behind = λ i. no_task;
    num_tasks = 0;
    current_task = 0;
    current_task_index = 0;
    esp0 = 0;
    cli = record { interrupts_enabled = false; cli_level = 0; cli_init_state = false };
    memory = tt;
  };
  buffers = λ addr. empty_buffer;
}

abbrev dragging : Gui Unit Unit Unit
dragging = record {
  cursor_x = 550;
  cursor_y = 100;
  prev_cursor_x = 550;
  prev_cursor_y = 100;
  prev_mouse_left_button = true;
  prev_mouse_right_button = false;
  window_under_cursor_inside_content = false;
  currently_dragging_window = 0;
  mouse = held;
  input = record {
    events = no_events;
    desktop = record {
      windows = window ∷ [];
      window_z_order = 0 ∷ [];
      z_order_length = 1;
      focused_window = 0;
      needs_redraw = false;
      shared = tt;
    };
    window_under_cursor = 0;
    console = tt;
  };
}

abbrev no_console : ℕ → Unit {0} → Outcome (Unit {0})
no_console c k = ok k

abbrev no_destroy : ℕ → Desktop (Unit {0}) → Outcome (Desktop (Unit {0}))
no_destroy id d = ok d

abbrev no_kill : ℕ → Events (Unit {0}) → Outcome (Events (Unit {0}))
no_kill id s = ok s

abbrev no_program : Events (Unit {0}) → Outcome (Events (Unit {0}))
no_program s = ok s

gui_handle_events-Dragged_example :
    Returns
      (gui_handle_events screen no_console no_destroy no_kill no_program dragging)
      (Dragged screen 0 dragging)
unfolding take
gui_handle_events-Dragged_example =
    gui_handle_events-Dragged screen no_console no_destroy no_kill no_program dragging (omega arith)
      (omega arith) (omega arith) (omega arith) (omega arith, tt) (λ e. omega (arith, e))
      (omega arith) refl refl

move_axis-Nearest_example : Nearest 640 (pos 550 +ℤ signed32 100) (move_axis 640 550 100)
unfolding ◌+ℤ◌
move_axis-Nearest_example =
    move_axis-Nearest 640 (omega arith) (omega arith) 550 100 (omega arith) (omega arith)
      (omega arith)
