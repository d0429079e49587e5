-- ===== src/Events/Examples.antt =====
-- kernel/events.c: a root task, and a task that waits for events and has one timer.
use quad_os.Base.{
  ℕ, zero, suc, ◌≡◌, refl, sym, ap, ◌∙◌, true, false, [], ◌∷◌, replicate, get_or, get_or-replicate,
  Returns, arith,
}
use quad_os.Tasks.{get_task, Task, Timer, task_at, idle, waiting_for_event, no_task, no_timer}
use quad_os.Events.{Event, Events, empty_buffer, event_keyboard, send_event_to_task, push_event}
use quad_os.Events.Timers.{
  due, timer_at, check_event_timers, check_tasks_from, check_timers_from, check_timer, set_timer,
}
use quad_os.Events.Buffer.{
  Logs, Refines, Receives, Sent, empty_buffer-Holds, send_event_to_task-Sent,
}
use quad_os.Windows.{Window, zero_window, get_window}
use quad_os.Interrupts.Nesting.{Restored}
use quad_os.Events.Handle.{Input, handle_event}
use quad_os.Events.Route.{handle_event-Sent}
use quad_os.Base.{Outcome, ok}
use quad_os.Events.TaskLoop.{AllCanFire, AllChecked, check_event_timers-AllChecked}

abbrev root : Task
root = record no_task { id = 1000; state = idle }

abbrev clock : Task
clock = record no_task {
  id = 1001;
  state = waiting_for_event;
  event_buffer = 0xf000_0000;
  timers = record { interval = 5; next_fire = 10; active = true } ∷ [];
}

abbrev two_tasks : Events Unit
two_tasks = record {
  sched = record {
    tasks = root ∷ clock ∷ [];
    behind = λ i. no_task;
    num_tasks = 2;
    current_task = 0;
    current_task_index = 0;
    esp0 = 0;
    cli = record { interrupts_enabled = false; cli_level = 0; cli_init_state = false };
    memory = tt;
  };
  buffers = λ addr. empty_buffer;
}

abbrev no_logs : Logs
no_logs = λ addr. []

no_logs-Refines : Refines no_logs two_tasks
no_logs-Refines addr = empty_buffer-Holds

clock-Receives : Receives 1 two_tasks
clock-Receives = record {
  not_root = omega arith;
  inside = omega arith;
  small = omega arith;
  living = λ e. omega arith;
  buffered = λ e. omega arith;
}

abbrev key : Event
key = record { type = event_keyboard; data0 = 30; data1 = 97; data2 = 0 }

send_event_to_task-Sent_example :
    Returns (send_event_to_task 1001 key two_tasks) (Sent no_logs 1 key two_tasks)
send_event_to_task-Sent_example =
    send_event_to_task-Sent no_logs 1 key two_tasks no_logs-Refines clock-Receives

no_timer-due : (time : ℕ) (x : Timer) → x ≡ no_timer → due time x ≡ true → ⊥
no_timer-due time x same e = idle_timer (sym (ap (λ (y : Timer). due time y) same) ∙ e)
  where
    idle_timer : due time no_timer ≡ true → ⊥
    idle_timer bad = cc

two_tasks-AllCanFire : AllCanFire 12 two_tasks
two_tasks-AllCanFire zero small living = (
  refl,
  λ t e. absurd (
      no_timer-due 12 (get_or (replicate 4 no_timer) t no_timer) (get_or-replicate 4 t no_timer) e),
)
two_tasks-AllCanFire (suc zero) small living = (refl, λ t e. clock-Receives)
two_tasks-AllCanFire (suc (suc i)) small living = absurd (living refl)

check_event_timers-AllChecked_example :
    Returns (check_event_timers 12 two_tasks) (AllChecked 12 64 0 no_logs two_tasks)
check_event_timers-AllChecked_example =
    check_event_timers-AllChecked 12 no_logs two_tasks no_logs-Refines two_tasks-AllCanFire

-- The timer has fired once and moved on, and the task is ready.
check_event_timers_run : Returns (check_event_timers 12 two_tasks) (λ s.
    ((timer_at s 1 0).next_fire ≡ 15)
    × ((task_at s.sched.tasks 1).state ≡ 1)
    × ((s.buffers 0xf000_0000).num_events ≡ 1))
unfolding check_event_timers check_tasks_from check_timers_from check_timer replicate
    send_event_to_task get_task set_timer push_event
check_event_timers_run = (refl, refl, refl)

abbrev clock_window : Window
clock_window = record zero_window { state = 1; owner_task_id = 1001 }

-- The window of the task with the clock has the focus.
abbrev focused : Input Unit Unit Unit
focused = record {
  events = two_tasks;
  desktop = record {
    windows = clock_window ∷ [];
    window_z_order = 0 ∷ [];
    z_order_length = 1;
    focused_window = 0;
    needs_redraw = false;
    shared = tt;
  };
  window_under_cursor = 0xffff_ffff;
  console = tt;
}

abbrev no_console : ℕ → Unit {0} → Outcome (Unit {0})
no_console c k = ok k

handle_event-Sent_example : Returns (handle_event no_console key focused) (λ s'.
    Sent no_logs 1 key two_tasks s'.events
    × Restored two_tasks.sched.cli s'.events.sched.cli
    × (s'.console ≡ tt))
unfolding get_window
handle_event-Sent_example =
    handle_event-Sent no_console no_logs key focused clock_window 1 no_logs-Refines refl
      clock-Receives refl (record { off = λ inside. refl }) (omega arith)
