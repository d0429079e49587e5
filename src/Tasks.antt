-- ===== src/Tasks.antt =====
-- kernel/tasks.c: the task table, the scheduler, and the creation and end of tasks. The open files
-- and directory and the shared libraries of a task are left out; its pool of mappings is in the memory.
pub mod Schedule
pub mod Table
pub mod Kill
mod Examples
use quad_os.Base.{
  ℕ, zero, suc, ◌+◌, ◌-◌, ◌*◌, ◌%◌, ◌^◌, Bool, true, false, not, ◌&&◌, List, [], ◌∷◌, Option, none,
  some, ◌==◌, ltb, leb, if◌then◌else◌, get_or, set, length, replicate, add32, sub32, Outcome, ok,
  panic, spins, ◌>>=◌, ◌>>◌, kernel_assert, Delivers,
}
use quad_os.Interrupts.{Cli, push_cli, pop_cli}

abbrev pub max_tasks : ℕ
max_tasks = 64

-- The task states
abbrev pub dead : ℕ
dead = 0

abbrev pub ready : ℕ
ready = 1

abbrev pub idle : ℕ
idle = 2

abbrev pub waiting_for_event : ℕ
waiting_for_event = 3

abbrev pub max_timers : ℕ
max_timers = 4

-- `next_fire` is of 64 bits.
pub record Timer : Type 0 where
  pub interval : ℕ
  pub next_fire : ℕ
  pub active : Bool

abbrev pub no_timer : Timer
no_timer = record { interval = 0; next_fire = 0; active = false }

pub record Task : Type 0 where
  pub id : ℕ
  pub kesp : ℕ
  pub kesp0 : ℕ
  pub pagedir : ℕ
  pub is_kernel_task : Bool
  pub state : ℕ
  pub event_buffer : ℕ
  pub event_shmem_id : ℕ
  pub heap_start : ℕ
  pub heap_end : ℕ
  pub timers : List Timer

-- What `memset(task, 0, sizeof(Task))` leaves.
abbrev pub no_task : Task
no_task = record {
  id = 0;
  kesp = 0;
  kesp0 = 0;
  pagedir = 0;
  is_kernel_task = false;
  state = 0;
  event_buffer = 0;
  event_shmem_id = 0;
  heap_start = 0;
  heap_end = 0;
  timers = replicate max_timers no_timer;
}

-- The registers that a new task starts with, as `isr_exit` takes them from its kernel stack. Below
-- them `write_stack` puts the return context that leads to `isr_exit`.
pub record TrapFrame : Type 0 where
  pub eip : ℕ
  pub cs : ℕ
  pub data_selector : ℕ
  pub usermode_esp : ℕ
  pub eflags : ℕ

-- The memory that tasks live in: the kernel heap, the shared memory objects with the pools of the
-- tasks, page directories, and what is written to a kernel stack. Each fallible operation ends; it
-- may stop the machine, and then `Exhausted` holds.
pub record Memory : Type 1 where
  pub State : Type 0
  pub Exhausted : Type 0
  pub kmalloc : ℕ → State → Outcome (ℕ × State)
  pub kfree : ℕ → State → Outcome State
  pub mem_free_page_dir : ℕ → State → Outcome State
  pub shmem_owner : ℕ → State → ℕ
  pub sharedmem_destroy : ℕ → State → Outcome State
  pub destroy_events : Task → State → Outcome State
  pub clear_pool : ℕ → State → State
  pub init_pool : ℕ → State → State
  pub write_stack : ℕ → TrapFrame → State → State
  pub kmalloc_steady : (bytes : ℕ) (s : State) → Delivers Exhausted (kmalloc bytes s) (λ _. Unit)
  pub kfree_steady : (addr : ℕ) (s : State) → Delivers Exhausted (kfree addr s) (λ _. Unit)
  pub free_dir_steady :
      (dir : ℕ) (s : State) → Delivers Exhausted (mem_free_page_dir dir s) (λ _. Unit)
  pub destroy_steady :
      (id : ℕ) (s : State) → Delivers Exhausted (sharedmem_destroy id s) (λ _. Unit)
  pub events_steady : (t : Task) (s : State) → Delivers Exhausted (destroy_events t s) (λ _. Unit)

-- `current_task` is the index of the task that the pointer is to; `esp0` is that of the task state
-- segment. `behind` is what the memory past the end of the table reads as, by the index of a task:
-- an id is not compared with the size of the table.
pub record Tasks (S : Type 0) : Type 0 where
  pub tasks : List Task
  pub behind : ℕ → Task
  pub num_tasks : ℕ
  pub current_task : ℕ
  pub current_task_index : ℕ
  pub esp0 : ℕ
  pub cli : Cli
  pub memory : S

abbrev pub task_at : List Task → ℕ → Task
task_at ts i = get_or ts i no_task

-- `task_id` is the bit pattern of an `int`.
unfoldable pub get_task_index : ℕ → Outcome ℕ
unfolding kernel_assert
get_task_index task_id = do
  kernel_assert (leb 1000 task_id && ltb task_id (2 ^ 31))
  ok (task_id - 1000)

module _ {S : Type 0} where
  -- `tasks[index]`, in the table or past its end
  abbrev pub task_of : Tasks S → ℕ → Task
  task_of t index = if ltb index (length t.tasks) then task_at t.tasks index else t.behind index

  abbrev pub put_task : ℕ → Task → Tasks S → Tasks S
  put_task index task t =
      if ltb index (length t.tasks)
      then record t { tasks = set t.tasks index task }
      else record t { behind = λ i. if i == index then task else t.behind i }

  unfoldable pub get_task : Tasks S → ℕ → Outcome Task
  unfolding get_task_index
  get_task t id = do index ← get_task_index id; ok (task_of t index)

unfoldable pub find_task_from : ℕ → List Task → Option ℕ
find_task_from i [] = none
find_task_from i (t ∷ ts) =
    let rest = find_task_from (i + 1) ts in if t.state == dead then some i else rest

unfoldable pub find_available_task_slot : List Task → Outcome ℕ
unfolding find_task_from
find_available_task_slot ts = elim (find_task_from 0 ts) [ none ↦ panic | some i ↦ ok i ]

-- The `while (true)` of `choose_next_task`, at the index `i`, with fuel for its rounds.
unfoldable pub next_ready : ℕ → List Task → ℕ → Outcome ℕ
next_ready zero ts i = spins
next_ready (suc fuel) ts i =
    let index = (i + 1) % max_tasks in
    let rest = next_ready fuel ts index in
    if (task_at ts index).state == ready then ok index else rest

abbrev pub kernel_stack_size : ℕ
kernel_stack_size = 0x1000 - 16

-- The size of the C structure: 19 registers.
abbrev pub trap_frame_size : ℕ
trap_frame_size = 76

abbrev pub return_context_size : ℕ
return_context_size = 20

abbrev pub user_stack_bottom : ℕ
user_stack_bottom = 0xb000_0000

abbrev pub new_frame : ℕ → Bool → TrapFrame
new_frame eip kernel_task = record {
  eip = eip;
  cs = if kernel_task then 0x08 else 0x1b;
  data_selector = if kernel_task then 0x10 else 0x23;
  usermode_esp = user_stack_bottom;
  eflags = 0x200;
}

abbrev pub new_task : ℕ → Bool → ℕ → ℕ → Task
new_task index kernel_task pagedir kernel_stack = record no_task {
  id = index + 1000;
  kesp = sub32 (sub32 kernel_stack trap_frame_size) return_context_size;
  kesp0 = kernel_stack;
  pagedir = pagedir;
  is_kernel_task = kernel_task;
  state = ready;
}

module _ {S : Type 0} where
  unfoldable pub choose_next_task : ℕ → Tasks S → Outcome ℕ
  unfolding next_ready
  choose_next_task fuel t =
      let next = next_ready fuel t.tasks t.current_task_index in
      if t.num_tasks == 1 then ok 0 else next

  -- Up to `switch_context`, which goes on in the task that is now current.
  unfoldable pub task_schedule : ℕ → Tasks S → Outcome (Tasks S)
  unfolding choose_next_task
  task_schedule fuel t = do
    index ← choose_next_task fuel t
    ok (record t {
      current_task = index;
      current_task_index = index;
      esp0 = (task_at t.tasks index).kesp0;
    })

  -- The kernel's own execution becomes task 0; `pagedir` is the page directory in use.
  unfoldable pub setup_tasks : ℕ → Tasks S → Tasks S
  unfolding replicate
  setup_tasks pagedir t = record t {
    tasks =
        set (replicate max_tasks no_task) 0
          (record no_task { id = 1000; state = idle; pagedir = pagedir });
    num_tasks = 1;
    current_task = 0;
    current_task_index = 0;
  }

module _ (M : Memory) where
  open M use {
    State, kmalloc, kfree, mem_free_page_dir, shmem_owner, sharedmem_destroy, destroy_events,
    clear_pool, init_pool, write_stack,
  }

  unfoldable pub create_task : ℕ → ℕ → Bool → ℕ → Tasks State → Outcome (Tasks State)
  unfolding kernel_assert
  create_task index eip kernel_task pagedir t = do
    kernel_assert ((task_at t.tasks index).id == 0)
    (stack, m) ← kmalloc kernel_stack_size (clear_pool index t.memory)
    let kernel_stack = add32 stack kernel_stack_size
    ok (record t {
      tasks = set t.tasks index (new_task index kernel_task pagedir kernel_stack);
      memory =
          init_pool index
            (write_stack (sub32 kernel_stack trap_frame_size) (new_frame eip kernel_task) m);
    })

  -- `initial_page_dir` is that of kernel/memory.c.
  unfoldable pub create_kernel_task : ℕ → ℕ → Tasks State → Outcome (ℕ × Tasks State)
  unfolding create_task find_available_task_slot
  create_kernel_task initial_page_dir func t = do
    index ← find_available_task_slot t.tasks
    t' ← create_task index func true initial_page_dir (record t { num_tasks = t.num_tasks + 1 })
    ok ((task_at t'.tasks index).id, t')

  -- The loop of `kill_task` over the shared memory objects, of which `left` are left.
  unfoldable pub destroy_owned : ℕ → ℕ → ℕ → State → Outcome State
  destroy_owned zero i id m = ok m
  destroy_owned (suc left) i id m = do
    m' ← if shmem_owner i m == id then sharedmem_destroy i m else ok m
    destroy_owned left (i + 1) id m'

  -- The early returns leave out `pop_cli`. An `id` from 2 ^ 31 on fails the test of
  -- `get_task_index`; one past the table names what lies behind it.
  unfoldable pub kill_task : ℕ → Tasks State → Outcome (Tasks State)
  unfolding get_task_index destroy_owned push_cli
  kill_task id t =
      let t₁ = record t { cli = push_cli t.cli } in
      let kill = do
        index ← get_task_index id
        let task = task_of t index
        let killed = do
          m₁ ← if task.is_kernel_task then ok t.memory else destroy_events task t.memory
          m₂ ← destroy_owned 256 0 id m₁
          m₃ ← mem_free_page_dir task.pagedir m₂
          m₄ ← kfree (sub32 task.kesp0 kernel_stack_size) m₃
          c ← pop_cli t₁.cli
          ok (record (put_task index no_task t) {
            num_tasks = sub32 t.num_tasks 1;
            cli = c;
            memory = clear_pool index m₄;
          })
        if task.state == dead then ok t₁ else killed
      in if leb id 1000 then ok t₁ else kill
