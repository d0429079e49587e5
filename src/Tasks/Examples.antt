-- ===== src/Tasks/Examples.antt =====
-- kernel/tasks.c on a table with the root task and two others.
use quad_os.Base.{
  ℕ, zero, suc, ◌+◌, ◌≤◌, ◌≡◌, ◌≢◌, ◌⊎◌, refl, true, false, ◌∷◌, replicate, length-replicate,
  get_or-replicate, if◌then◌else◌, ◌==◌, ok, spins, Delivers, Returns, arith,
}
use quad_os.Tasks.{
  Task, Tasks, Memory, task_at, no_task, dead, ready, max_tasks, task_schedule, create_kernel_task,
  kill_task,
}
use quad_os.Tasks.Schedule.{
  NextReady, task_schedule-NextReady, task_schedule_spins, task_schedule_fair, schedule_times,
}
use quad_os.Tasks.Table.{IsTasks, alive, Spawned, create_kernel_task-Spawned}
use quad_os.Tasks.Kill.{Killed, kill_task-Killed}

-- The state is the next free address; nothing is ever given back.
abbrev growing : Memory
growing = record {
  State = ℕ;
  Exhausted = ⊥;
  kmalloc = λ bytes s. ok (s, s + bytes);
  kfree = λ addr s. ok s;
  mem_free_page_dir = λ dir s. ok s;
  shmem_owner = λ i s. 0;
  sharedmem_destroy = λ id s. ok s;
  destroy_events = λ t s. ok s;
  clear_pool = λ i s. s;
  init_pool = λ i s. s;
  write_stack = λ addr frame s. s;
  kmalloc_steady = λ bytes s. tt;
  kfree_steady = λ addr s. tt;
  free_dir_steady = λ dir s. tt;
  destroy_steady = λ id s. tt;
  events_steady = λ t s. tt;
}

abbrev root : Task
root = record no_task { id = 1000; state = 2; pagedir = 0x1000 }

abbrev worker : ℕ → Task
worker id = record no_task {
  id = id;
  state = 1;
  kesp0 = 0xd000_1000;
  pagedir = 0x2000;
  is_kernel_task = true;
}

abbrev waiting : Task
waiting = record no_task { id = 1002; state = 3; kesp0 = 0xd000_3000; pagedir = 0x3000 }

abbrev three : Tasks ℕ
three = record {
  tasks = root ∷ (worker 1001 ∷ (waiting ∷ replicate 61 no_task));
  behind = λ i. no_task;
  num_tasks = 3;
  current_task = 1;
  current_task_index = 1;
  esp0 = 0xd000_1000;
  cli = record { interrupts_enabled = true; cli_level = 0; cli_init_state = false };
  memory = 0xd000_4000;
}

-- All but the root wait for an event.
abbrev stuck : Tasks ℕ
stuck = record three { tasks = root ∷ (waiting ∷ replicate 62 no_task); num_tasks = 2 }

alive_tail : (n : ℕ) → alive (replicate n no_task) ≡ 0
unfolding alive replicate
alive_tail zero = refl
alive_tail (suc n) = omega (arith, alive_tail n)

three-IsTasks : IsTasks three
unfolding alive
three-IsTasks = record {
  table = omega (arith, length-replicate {0} 61 no_task);
  counted = omega (arith, alive_tail 61);
  ids = λ i lt. named i;
}
  where
    named :
        (i : ℕ)
        → (task_at three.tasks i).id
          ≡ (if (task_at three.tasks i).state == dead then 0 else i + 1000)
    named zero = refl
    named (suc zero) = refl
    named (suc (suc zero)) = refl
    named (suc (suc (suc i))) = rw (get_or-replicate 61 i no_task) refl

none_ready : (k : ℕ) → (task_at stuck.tasks k).state ≢ ready
none_ready zero = λ e. omega arith
none_ready (suc zero) = λ e. omega arith
none_ready (suc (suc k)) = rw (get_or-replicate 62 k no_task) (λ e. omega arith)

task_schedule-NextReady_example : Returns (task_schedule 64 three) (λ t'.
    NextReady three.tasks 1 t'.current_task_index
    × (t'.current_task ≡ t'.current_task_index)
    × (t'.esp0 ≡ (task_at three.tasks t'.current_task_index).kesp0)
    × (t'.tasks ≡ three.tasks)
    × (t'.num_tasks ≡ 3))
task_schedule-NextReady_example =
    task_schedule-NextReady 64 1 three (λ e. omega arith) (omega arith) (omega arith) refl
      (omega arith)

task_schedule_fair_example :
    (calls : ℕ) × (calls ≤ max_tasks)
    × Returns (schedule_times calls 64 three) (λ t'. t'.current_task_index ≡ 1)
task_schedule_fair_example =
    task_schedule_fair 64 1 three (λ e. omega arith) (omega arith) (omega arith) refl (omega arith)

task_schedule_spins_example : task_schedule 1000 stuck ≡ spins
task_schedule_spins_example =
    task_schedule_spins 1000 stuck (λ e. omega arith) (λ k lt. none_ready k)

create_kernel_task-Spawned_example :
    Delivers
      (⊥ ⊎ (3 ≡ max_tasks))
      (create_kernel_task growing 0x1000 0xc010_0000 three)
      (λ r. Spawned growing 0x1000 0xc010_0000 three r.0 r.1)
create_kernel_task-Spawned_example =
    create_kernel_task-Spawned growing 0x1000 0xc010_0000 three three-IsTasks

kill_task-Killed_example : Delivers ⊥ (kill_task growing 1002 three) (Killed growing 1002 three)
kill_task-Killed_example =
    kill_task-Killed growing 1002 three three-IsTasks (record { off = λ h. absurd (h refl) })
      (omega arith) (omega arith) (omega arith) (λ e. omega arith)
