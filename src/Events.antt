-- ===== src/Events.antt =====
-- kernel/events.c: the events of tasks, in a ring buffer of shared memory for each, and their timers.
pub mod Timers
pub mod Handle
pub mod Buffer
pub mod Fire
pub mod TimerLoop
pub mod TaskLoop
pub mod Route
mod Examples
use quad_os.Base.{
  ℕ, zero, suc, ◌+◌, ◌-◌, ◌*◌, ◌/◌, ◌%◌, ◌^◌, Bool, true, false, not, ◌&&◌, ◌||◌, List, [], ◌∷◌,
  Option, none, some, ◌==◌, ltb, leb, if◌then◌else◌, get_or, set, replicate, add32, sub32, u32_mod,
  Outcome, ok, panic, spins, ◌>>=◌, ◌>>◌, kernel_assert,
}
use quad_os.Tasks.{
  Task, Tasks, Timer, task_at, put_task, get_task, task_schedule, dead, ready, waiting_for_event,
  max_tasks, max_timers, no_timer,
}
use quad_os.Windows.{Window, Desktop, get_window}
use quad_os.Interrupts.{Cli, push_cli, pop_cli}

abbrev pub event_keyboard : ℕ
event_keyboard = 1

abbrev pub event_mouse_click : ℕ
event_mouse_click = 2

abbrev pub event_mouse_move : ℕ
event_mouse_move = 3

abbrev pub event_timer : ℕ
event_timer = 4

pub record Event : Type 0 where
  pub type : ℕ
  pub data0 : ℕ
  pub data1 : ℕ
  pub data2 : ℕ

abbrev pub no_event : Event
no_event = record { type = 0; data0 = 0; data1 = 0; data2 = 0 }

abbrev pub event_buffer_size : ℕ
event_buffer_size = 256

pub record EventBuffer : Type 0 where
  pub num_events : ℕ
  pub buffer : List Event

-- What `memset(buffer, 0, sizeof(EventBuffer))` leaves.
abbrev pub empty_buffer : EventBuffer
empty_buffer = record { num_events = 0; buffer = replicate event_buffer_size no_event }

-- The size of the C structure.
abbrev pub event_buffer_bytes : ℕ
event_buffer_bytes = 4 + 16 * event_buffer_size

-- The tasks, and the event buffers by their address in the kernel's part of memory.
pub record Events (S : Type 0) : Type 0 where
  pub sched : Tasks S
  pub buffers : ℕ → EventBuffer

-- `buffer->buffer[buffer->num_events % EVENT_BUFFER_SIZE] = *event; buffer->num_events++;`
unfoldable pub push_event : Event → EventBuffer → EventBuffer
push_event event b = record {
  num_events = add32 b.num_events 1;
  buffer = set b.buffer (b.num_events % event_buffer_size) event;
}

abbrev pub write_buffer : ℕ → EventBuffer → (ℕ → EventBuffer) → ℕ → EventBuffer
write_buffer addr b buffers = λ a. if a == addr then b else buffers a

-- A task that waits for an event is ready again.
abbrev pub woken : Task → Task
woken task = if task.state == waiting_for_event then record task { state = ready } else task

module _ {S : Type 0} where
  -- `task_id` is the bit pattern of an `int32_t`.
  unfoldable pub send_event_to_task : ℕ → Event → Events S → Outcome (Events S)
  unfolding kernel_assert
  send_event_to_task task_id event s = do
    kernel_assert (ltb 1000 task_id && ltb task_id (2 ^ 31))
    task ← get_task s.sched task_id
    kernel_assert (not (task.state == dead))
    kernel_assert (not (task.event_buffer == 0))
    let addr = task.event_buffer
    ok (record {
      sched = put_task (task_id - 1000) (woken task) s.sched;
      buffers = write_buffer addr (push_event event (s.buffers addr)) s.buffers;
    })

  -- Up to the switch to the next task.
  unfoldable pub task_wait_for_event : ℕ → Tasks S → Outcome (Tasks S)
  task_wait_for_event fuel t =
      let task = task_at t.tasks t.current_task in
      task_schedule fuel (record t {
        tasks = set t.tasks t.current_task (record task { state = waiting_for_event });
      })

  unfoldable pub get_event_buffer_shmem_id : Tasks S → ℕ
  get_event_buffer_shmem_id t = (task_at t.tasks t.current_task).event_shmem_id

-- What a task's events are kept in (kernel/sharedmem.c).
pub record EventMemory : Type 1 where
  pub State : Type 0
  pub sharedmem_create : ℕ → ℕ → State → Outcome (ℕ × State)
  pub sharedmem_map : ℕ → ℕ → State → Outcome (ℕ × State)
  pub sharedmem_destroy : ℕ → State → Outcome State

module _ (M : EventMemory) where
  open M use {State, sharedmem_create, sharedmem_map, sharedmem_destroy}

  -- The result is the task, the buffers and the memory.
  unfoldable pub init_events_for_task :
      Task → (ℕ → EventBuffer) → State → Outcome (Task × (ℕ → EventBuffer) × State)
  init_events_for_task task buffers m = do
    (id, m₁) ← sharedmem_create event_buffer_bytes 0 m
    (buffer, m₂) ← sharedmem_map id 0 m₁
    ok (
      record task { event_shmem_id = id; event_buffer = buffer },
      write_buffer buffer empty_buffer buffers,
      m₂,
    )

  -- `event_shmem_id` is the bit pattern of an `int32_t`.
  unfoldable pub destroy_events_for_task : Task → State → Outcome (Task × State)
  unfolding kernel_assert
  destroy_events_for_task task m = do
    kernel_assert (ltb task.event_shmem_id (2 ^ 31))
    m' ← sharedmem_destroy task.event_shmem_id m
    ok (record task { event_shmem_id = u32_mod - 1 }, m')
