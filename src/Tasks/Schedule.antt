-- ===== src/Tasks/Schedule.antt =====
-- kernel/tasks.c: the choice of the next task.
use quad_os.Base.{
  ℕ, zero, suc, ◌+◌, ◌-◌, ◌%◌, ◌≤◌, ◌<◌, ◌≡◌, ◌≢◌, refl, sym, ap, ◌∙◌, false, List, ◌==◌, ==_iff,
  Bool-cases, inl, inr, Outcome, ok, spins, ◌>>=◌, Returns, returned, dec_lt, ℕ_discrete,
  Returns-bind, Returns-map, arith,
}
use quad_os.Tasks.{
  Task, Tasks, task_at, ready, max_tasks, next_ready, choose_next_task, task_schedule,
}

-- How many rounds of the search, begun after the index `i`, lead to the index `k`.
abbrev pub distance : ℕ → ℕ → ℕ
distance i k = (k + 63 - i) % 64 + 1

-- The index `j` is that of the first ready task in the cycle after `i`.
pub record NextReady (ts : List Task) (i j : ℕ) : Type 0 where
  pub inside : j < max_tasks
  pub is_ready : (task_at ts j).state ≡ ready
  pub first : (m : ℕ) → m < max_tasks → distance i m < distance i j → (task_at ts m).state ≢ ready

distance-step :
    (i m : ℕ)
    → i < max_tasks
    → m < max_tasks
    → m ≢ (i + 1) % max_tasks
    → distance ((i + 1) % max_tasks) m + 1 ≡ distance i m
distance-step i m lt small ne = omega arith

apart :
    (ts : List Task) (a b : ℕ) → (task_at ts a).state ≢ ready → (task_at ts b).state ≡ ready → b ≢ a
apart ts a b busy h e = busy (ap (λ (n : ℕ). (task_at ts n).state) (sym e) ∙ h)

NextReady-step :
    (ts : List Task) (i j : ℕ)
    → i < max_tasks
    → (task_at ts ((i + 1) % max_tasks)).state ≢ ready
    → NextReady ts ((i + 1) % max_tasks) j
    → NextReady ts i j
NextReady-step ts i j lt busy v = record {
  inside = v.inside;
  is_ready = v.is_ready;
  first = λ m small before. elim (Bool-cases (m == (i + 1) % max_tasks)) [
    | inl e ↦ λ r. apart ts ((i + 1) % max_tasks) m busy r ((==_iff m ((i + 1) % max_tasks)).0 e)
    | inr ne ↦ v.first m small (
        omega (
          arith,
          before,
          distance-step i m lt small (λ e. absurd (cc (ne, (==_iff m ((i + 1) % max_tasks)).1 e))),
          distance-step i j lt v.inside (apart ts ((i + 1) % max_tasks) j busy v.is_ready),
        ))
  ];
}

-- The search with enough fuel to reach some ready task `k` returns the first one.
next_ready-NextReady :
    (fuel : ℕ) (ts : List Task) (i k : ℕ)
    → i < max_tasks
    → k < max_tasks
    → (task_at ts k).state ≡ ready
    → distance i k ≤ fuel
    → Returns (next_ready fuel ts i) (NextReady ts i)
unfolding next_ready
next_ready-NextReady zero ts i k lt small h f = absurd (omega arith)
next_ready-NextReady (suc fuel) ts i k lt small h f =
    elim (Bool-cases ((task_at ts ((i + 1) % max_tasks)).state == ready)) [
      | inl e ↦
          rw (e, Returns)
            (record {
              inside = omega arith;
              is_ready = (==_iff _ ready).0 e;
              first = λ m small' before. absurd (omega (arith, before));
            })
      | inr ne ↦
          let busy : (task_at ts ((i + 1) % max_tasks)).state ≢ ready = ground (arith, ne) in
          rw (ne, Returns)
            (Returns-map (next_ready fuel ts ((i + 1) % max_tasks)) _ _
              (next_ready-NextReady fuel ts ((i + 1) % max_tasks) k (omega arith) small h (
                omega
                  (arith, f, distance-step i k lt small (apart ts ((i + 1) % max_tasks) k busy h))))
              (λ j v. NextReady-step ts i j lt busy v))
    ]

module _ {S : Type 0} where
  -- With more than one task, and fuel for one turn through the table, the scheduler switches to the
  -- first ready task in the cycle after the current one, if there is a ready task at all; it changes
  -- no task, and takes the kernel stack of the task that it switches to.
  pub task_schedule-NextReady :
      (fuel k : ℕ) (t : Tasks S)
      → t.num_tasks ≢ 1
      → t.current_task_index < max_tasks
      → k < max_tasks
      → (task_at t.tasks k).state ≡ ready
      → max_tasks ≤ fuel
      → Returns (task_schedule fuel t) (λ t'.
        NextReady t.tasks t.current_task_index t'.current_task_index
        × (t'.current_task ≡ t'.current_task_index)
        × (t'.esp0 ≡ (task_at t.tasks t'.current_task_index).kesp0)
        × (t'.tasks ≡ t.tasks)
        × (t'.num_tasks ≡ t.num_tasks))
  unfolding task_schedule choose_next_task
  task_schedule-NextReady fuel k t many lt small h f =
      let several : (t.num_tasks == 1) ≡ false = ground (arith, many) in
      rw (several, Returns)
        (Returns-bind (next_ready fuel t.tasks t.current_task_index) _ _ _
          (next_ready-NextReady fuel t.tasks t.current_task_index k lt small h (omega (arith, f)))
          (λ j v. (v, refl, refl, refl, refl)))

  -- `task_schedule` called `calls` times in a row, with nothing in between.
  unfoldable pub schedule_times : ℕ → ℕ → Tasks S → Outcome (Tasks S)
  unfolding task_schedule
  schedule_times zero fuel t = ok t
  schedule_times (suc calls) fuel t = task_schedule fuel t >>= schedule_times calls fuel

  closer :
      (t : Tasks S) (j k : ℕ)
      → t.current_task_index < max_tasks
      → k < max_tasks
      → (task_at t.tasks k).state ≡ ready
      → j ≢ k
      → NextReady t.tasks t.current_task_index j
      → distance j k < distance t.current_task_index k
  closer t j k lt small h ne v =
      elim (dec_lt (distance t.current_task_index k) (distance t.current_task_index j)) [
        | yes skipped ↦ absurd (v.first k small skipped h)
        | no kept ↦ omega (arith, v.inside)
      ]

  waits :
      (bound fuel k : ℕ) (t : Tasks S)
      → t.num_tasks ≢ 1
      → t.current_task_index < max_tasks
      → k < max_tasks
      → (task_at t.tasks k).state ≡ ready
      → max_tasks ≤ fuel
      → distance t.current_task_index k ≤ bound
      → (calls : ℕ) × (calls ≤ bound)
        × Returns (schedule_times calls fuel t) (λ t'. t'.current_task_index ≡ k)
  unfolding schedule_times
  waits zero fuel k t many lt small h f b = absurd (omega arith)
  waits (suc bound) fuel k t many lt small h f b =
      let (t', eq, v) =
        returned (task_schedule fuel t) _ (task_schedule-NextReady fuel k t many lt small h f) in
      elim (ℕ_discrete t'.current_task_index k) [
        | yes e ↦ (1, omega arith, rw (eq, Returns) e)
        | no ne ↦
            let again =
              waits bound fuel k t' (λ e. many (sym v.4 ∙ e)) v.0.inside small
                (ap (λ (ts : List Task). (task_at ts k).state) v.3 ∙ h) f
                (omega (arith, b, closer t t'.current_task_index k lt small h ne v.0)) in
            (suc again.0, omega (arith, again.1), rw (eq, Returns) again.2)
      ]

  -- With more than one task, a ready task runs after at most 64 calls of the scheduler, as long as
  -- no task changes its state.
  pub task_schedule_fair :
      (fuel k : ℕ) (t : Tasks S)
      → t.num_tasks ≢ 1
      → t.current_task_index < max_tasks
      → k < max_tasks
      → (task_at t.tasks k).state ≡ ready
      → max_tasks ≤ fuel
      → (calls : ℕ) × (calls ≤ max_tasks)
        × Returns (schedule_times calls fuel t) (λ t'. t'.current_task_index ≡ k)
  task_schedule_fair fuel k t many lt small h f =
      waits max_tasks fuel k t many lt small h f (omega arith)

  -- The only task goes on when the scheduler is called.
  schedule_alone : (fuel : ℕ) (t : Tasks S) → t.num_tasks ≡ 1 → choose_next_task fuel t ≡ ok 0
  unfolding choose_next_task
  schedule_alone fuel t e = ground arith

-- No ready task: the search goes round for ever.
next_ready-spins :
    (fuel : ℕ) (ts : List Task) (i : ℕ)
    → ((k : ℕ) → k < max_tasks → (task_at ts k).state ≢ ready)
    → next_ready fuel ts i ≡ spins
unfolding next_ready
next_ready-spins zero ts i h = refl
next_ready-spins (suc fuel) ts i h =
    ground (
      arith,
      next_ready-spins fuel ts ((i + 1) % max_tasks) h,
      h ((i + 1) % max_tasks) (omega arith),
    )

module _ {S : Type 0} where
  -- With more than one task and none of them ready, the scheduler never returns, whatever the fuel,
  -- as long as no task changes its state.
  pub task_schedule_spins :
      (fuel : ℕ) (t : Tasks S)
      → t.num_tasks ≢ 1
      → ((k : ℕ) → k < max_tasks → (task_at t.tasks k).state ≢ ready)
      → task_schedule fuel t ≡ spins
  unfolding task_schedule choose_next_task
  task_schedule_spins fuel t many h =
      let several : (t.num_tasks == 1) ≡ false = ground (arith, many) in
      rw (several, next_ready-spins fuel t.tasks t.current_task_index h) refl
