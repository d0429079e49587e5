-- ===== src/Events/Timers.antt =====
-- kernel/events.c and kernel/syscall.c: the timers of tasks, and the events that they send.
use quad_os.Base.{
  ℕ, zero, suc, ◌+◌, ◌-◌, ◌%◌, ◌^◌, Bool, not, ◌&&◌, ◌||◌, ◌==◌, ltb, leb, if◌then◌else◌, get_or,
  set, u32_mod, Outcome, ok, ◌>>=◌, ◌>>◌, kernel_assert,
}
use quad_os.Tasks.{Tasks, Timer, task_at, dead, max_tasks, max_timers, no_timer}
use quad_os.Events.{Event, Events, event_timer, send_event_to_task}

abbrev pub due : ℕ → Timer → Bool
due time timer = timer.active && leb timer.next_fire time

-- The event of the timer `t`; its time is cut to 32 bits.
abbrev pub timer_event : ℕ → Timer → Event
timer_event t timer = record {
  type = event_timer;
  data0 = t;
  data1 = timer.next_fire % u32_mod;
  data2 = 0;
}

abbrev pub advanced : Timer → Timer
advanced timer = record timer { next_fire = (timer.next_fire + timer.interval) % 2 ^ 64 }

module _ {S : Type 0} where
  abbrev pub timer_at : Events S → ℕ → ℕ → Timer
  timer_at s i t = get_or (task_at s.sched.tasks i).timers t no_timer

  unfoldable pub set_timer : ℕ → ℕ → Timer → Events S → Events S
  set_timer i t timer s =
      let task = task_at s.sched.tasks i in
      record s {
        sched = record s.sched {
          tasks = set s.sched.tasks i (record task { timers = set task.timers t timer });
        };
      }

  -- One round of the inner loop of `check_event_timers`, for the timer `t` of the task in slot `i`.
  unfoldable pub check_timer : ℕ → ℕ → ℕ → Events S → Outcome (Events S)
  check_timer time i t s =
      let timer = timer_at s i t in
      let fire = do
        s' ← send_event_to_task (task_at s.sched.tasks i).id (timer_event t timer) s
        ok (set_timer i t (advanced timer) s')
      in if due time timer then fire else ok s

  -- The inner loop, with `left` timers left from the timer `t` on.
  unfoldable pub check_timers_from : ℕ → ℕ → ℕ → ℕ → Events S → Outcome (Events S)
  check_timers_from time i zero t s = ok s
  check_timers_from time i (suc left) t s = do
    s' ← check_timer time i t s
    check_timers_from time i left (t + 1) s'

  -- The outer loop, with `left` slots left from the slot `i` on.
  unfoldable pub check_tasks_from : ℕ → ℕ → ℕ → Events S → Outcome (Events S)
  check_tasks_from time zero i s = ok s
  check_tasks_from time (suc left) i s = do
    s' ←
        if (task_at s.sched.tasks i).state == dead
        then ok s
        else check_timers_from time i max_timers 0 s
    check_tasks_from time left (i + 1) s'

  -- `time` is that of `get_system_time_millis`.
  unfoldable pub check_event_timers : ℕ → Events S → Outcome (Events S)
  check_event_timers time s = check_tasks_from time max_tasks 0 s

  -- kernel/syscall.c: the arguments are bit patterns of an `int`; a negative timer, which the
  -- assertion lets through, would be written in front of the array, and here is dropped.
  unfoldable pub syscall_set_timer_interval : ℕ → ℕ → ℕ → Tasks S → Outcome (Tasks S)
  unfolding kernel_assert
  syscall_set_timer_interval time timer_id interval_ms t = do
    kernel_assert (ltb timer_id max_timers || leb (2 ^ 31) timer_id)
    let task = task_at t.tasks t.current_task
    let millis = if ltb interval_ms (2 ^ 31) then interval_ms else interval_ms + (2 ^ 64 - 2 ^ 32)
    let timer : Timer = record {
      interval = interval_ms;
      next_fire = (time + millis) % 2 ^ 64;
      active = not (interval_ms == 0);
    }
    ok (record t {
      tasks = set t.tasks t.current_task (record task { timers = set task.timers timer_id timer });
    })
