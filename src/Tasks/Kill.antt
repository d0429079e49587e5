-- ===== src/Tasks/Kill.antt =====
-- kernel/tasks.c: the end of a task.
use quad_os.Base.{
  ℕ, zero, suc, ◌+◌, ◌-◌, ◌^◌, ◌<◌, ◌≡◌, ◌≢◌, refl, true, false, ◌==◌, leb, ltb, length,
  if◌then◌else◌, Bool-cases, inl, inr, set, sub32, ok, Delivers, Delivers-bind, Returns→Delivers,
  kernel_assert, arith,
}
use quad_os.Interrupts.{push_cli, pop_cli}
use quad_os.Interrupts.Nesting.{IsCli, Restored, pop-closes}
use quad_os.Tasks.{
  Task, Tasks, Memory, task_at, no_task, dead, kernel_stack_size, destroy_owned, get_task_index,
  kill_task,
}
use quad_os.Tasks.Table.{IsTasks, IsTasks-set, alive-pos}

get_task_index-eq : (id : ℕ) → 1000 < id → id < 2 ^ 31 → get_task_index id ≡ ok (id - 1000)
unfolding get_task_index kernel_assert
get_task_index-eq id large small = ground arith

module _ (M : Memory) where
  open M use {
    State, Exhausted, kfree, mem_free_page_dir, sharedmem_destroy, shmem_owner, destroy_events,
    kfree_steady, free_dir_steady, destroy_steady, events_steady,
  }

  destroy_owned-steady :
      (left i id : ℕ) (m : State) → Delivers Exhausted (destroy_owned M left i id m) (λ _. Unit)
  unfolding destroy_owned
  destroy_owned-steady zero i id m = tt
  destroy_owned-steady (suc left) i id m = elim (Bool-cases (shmem_owner i m == id)) [
    | inl e ↦ rw e (
        Delivers-bind _ (sharedmem_destroy i m) _ _ _ (destroy_steady i m)
          (λ m' _. destroy_owned-steady left (i + 1) id m'))
    | inr ne ↦ rw ne (destroy_owned-steady left (i + 1) id m)
  ]

  end_events-steady :
      (task : Task) (m : State)
      → Delivers Exhausted (if task.is_kernel_task then ok m else destroy_events task m) (λ _. Unit)
  end_events-steady task m = elim (Bool-cases task.is_kernel_task) [
    | inl e ↦ rw e tt
    | inr ne ↦ simp ne (events_steady task m)
  ]

  -- What the end of the task with this id leaves.
  pub record Killed (id : ℕ) (t t' : Tasks State) : Type 0 where
    pub table : IsTasks t'
    pub emptied : t'.tasks ≡ set t.tasks (id - 1000) no_task
    pub counted : t'.num_tasks + 1 ≡ t.num_tasks
    pub current : t'.current_task_index ≡ t.current_task_index
    pub section_closed : Restored t.cli t'.cli

  -- From a valid table, and critical sections not nested so deep that their level overflows, killing
  -- a task other than the root that is not dead empties its slot, counts it out, changes no other
  -- task, and restores the interrupt flag; it stops the machine only if the memory does.
  pub kill_task-Killed :
      (id : ℕ) (t : Tasks State)
      → IsTasks t
      → IsCli t.cli
      → t.cli.cli_level + 1 < 2 ^ 31
      → 1000 < id
      → id < 1064
      → (task_at t.tasks (id - 1000)).state ≢ dead
      → Delivers Exhausted (kill_task M id t) (Killed id t)
  unfolding kill_task
  kill_task-Killed id t v c deep large small living =
      let above : leb id 1000 ≡ false = ground arith in
      let lives : ((task_at t.tasks (id - 1000)).state == dead) ≡ false = ground (arith, living) in
      let task = task_at t.tasks (id - 1000) in
      let within : ltb (id - 1000) (length t.tasks) ≡ true = ground (arith, v.table) in
      let pos = alive-pos t.tasks (id - 1000) (omega (arith, v.table)) living in
      simp (above, get_task_index-eq id large (omega arith), within, lives)
        (Delivers-bind _ (if task.is_kernel_task then ok t.memory else destroy_events task t.memory)
          _ _ _ (end_events-steady task t.memory)
          (λ m₁ _.
            Delivers-bind _ (destroy_owned M 256 0 id m₁) _ _ _ (destroy_owned-steady 256 0 id m₁)
              (λ m₂ _.
                Delivers-bind _ (mem_free_page_dir task.pagedir m₂) _ _ _ (free_dir_steady _ m₂)
                  (λ m₃ _.
                    Delivers-bind _ (kfree (sub32 task.kesp0 kernel_stack_size) m₃) _ _ _
                      (kfree_steady _ m₃)
                      (λ m₄ _.
                        Delivers-bind _ (pop_cli (push_cli t.cli)) _ _ _
                          (Returns→Delivers _ (pop_cli (push_cli t.cli)) _ (
                            pop-closes t.cli (push_cli t.cli) c deep
                              (record { enabled = refl; level = refl; saved = λ _. refl })))
                          (λ c' closed. record {
                            table =
                                IsTasks-set t _ (id - 1000) no_task v (omega arith) refl
                                  (ground (arith, lives, pos, v.counted, v.table)) refl;
                            emptied = refl;
                            counted = omega (arith, pos, v.counted, v.table);
                            current = refl;
                            section_closed = closed;
                          }))))))
