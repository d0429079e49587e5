-- ===== src/Events/TaskLoop.antt =====
-- kernel/events.c, `check_event_timers`: its loop over the tasks.
use quad_os.Base.{
  ℕ, zero, suc, ◌+◌, ◌≤◌, ◌<◌, ◌≡◌, ◌≢◌, ◌⊎◌, refl, sym, ap, ◌∙◌, subst, true, false, List, inl,
  inr, ◌==◌, ==_iff, Bool-cases, ℕ_discrete, if◌then◌else◌, get_or, Returns, Returns-bind,
  Returns-map, arith,
}
use quad_os.Tasks.{Task, task_at, dead, max_tasks, max_timers, no_timer}
use quad_os.Events.{Events}
use quad_os.Events.Timers.{timer_at, due, check_timers_from, check_tasks_from, check_event_timers}
use quad_os.Events.Buffer.{Logs, Refines}
use quad_os.Events.Fire.{fired, due_events, append_all, SameTask, Checked, CanFire}
use quad_os.Events.TimerLoop.{Receives-kept, CanFire-kept, check_timers_from-Checked}

-- The logs after the tasks of `left` slots, from the slot `i` on.
unfoldable pub all_logs : ℕ → ℕ → ℕ → List Task → Logs → Logs
all_logs time zero i ts logs = logs
all_logs time (suc left) i ts logs =
    let task = task_at ts i in
    let sent = append_all task.event_buffer (due_events time task.timers 0 max_timers) logs in
    all_logs time left (i + 1) ts (if task.state == dead then logs else sent)

all_logs-eq :
    (time left i : ℕ) (ts us : List Task) (logs : Logs)
    → ((j : ℕ) → i ≤ j → task_at ts j ≡ task_at us j)
    → all_logs time left i ts logs ≡ all_logs time left i us logs
unfolding all_logs
all_logs-eq time zero i ts us logs h = refl
all_logs-eq time (suc left) i ts us logs h =
    let sent : Task → Logs = λ x.
      if x.state == dead
      then logs
      else append_all x.event_buffer (due_events time x.timers 0 max_timers) logs in
    ap (λ (x : Task). all_logs time left (i + 1) ts (sent x)) (h i (omega arith))
    ∙ all_logs-eq time left (i + 1) ts us (sent (task_at us i)) (λ j le. h j (omega arith))

module _ {S : Type 0} where
  -- Every due timer belongs to a task that can receive its event.
  abbrev pub AllCanFire : ℕ → Events S → Type 0
  AllCanFire time s =
      (i : ℕ) → i < max_tasks → (task_at s.sched.tasks i).state ≢ dead → CanFire time i s

  -- What a check of the slots from `i` on, below `i + left`, does.
  pub record AllChecked (time left i : ℕ) (logs : Logs) (s s' : Events S) : Type 0 where
    pub logged : Refines (all_logs time left i s.sched.tasks logs) s'
    pub fires :
        (j u : ℕ)
        → i ≤ j
        → j < i + left
        → (task_at s.sched.tasks j).state ≢ dead
        → u < max_timers
        → timer_at s' j u ≡ fired time (timer_at s j u)
    pub unchanged :
        (j : ℕ)
        → (j < i) ⊎ ((task_at s.sched.tasks j).state ≡ dead)
        → task_at s'.sched.tasks j ≡ task_at s.sched.tasks j

  AllCanFire-kept :
      (time i : ℕ) (logs : Logs) (s s' : Events S)
      → i < max_tasks
      → (task_at s.sched.tasks i).state ≢ dead
      → Checked time i 0 4 logs s s'
      → AllCanFire time s
      → AllCanFire time s'
  AllCanFire-kept time i logs s s' inside living c can j lt living' = elim (ℕ_discrete j i) [
    | yes e ↦
        subst (λ (k : ℕ). CanFire time k s') (sym e)
          (CanFire-kept time i 0 4 logs s s' c (can i inside living))
    | no ne ↦
        let same = c.others j ne in
        let before = can j lt (λ dying. living' (ap Task.state same ∙ dying)) in
        (
          ap Task.id same ∙ before.0,
          λ u h.
              Receives-kept j s s'
                (subst (λ (x : Task). SameTask (task_at s.sched.tasks j) x) (sym same)
                  (refl, refl, λ l. l))
                c.table
                (before.1 u
                  (ap (λ (x : Task). due time (get_or x.timers u no_timer)) (sym same) ∙ h)),
        )
  ]

  skipped :
      (time left i : ℕ) (logs : Logs) (s s' : Events S)
      → ((task_at s.sched.tasks i).state == dead) ≡ true
      → AllChecked time left (i + 1) logs s s'
      → AllChecked time (suc left) i logs s s'
  unfolding all_logs
  skipped time left i logs s s' e b = record {
    logged = simp e b.logged;
    fires = λ j u lo hi living inside. elim (ℕ_discrete j i) [
      | yes same ↦ absurd (
          living (
            subst (λ (k : ℕ). (task_at s.sched.tasks k).state ≡ dead) (sym same)
              ((==_iff _ dead).0 e)))
      | no ne ↦ b.fires j u (omega arith) (omega arith) living inside
    ];
    unchanged = λ j out. elim out [
      | inl lt ↦ b.unchanged j (inl (omega arith))
      | inr dying ↦ b.unchanged j (inr dying)
    ];
  }

  checked :
      (time left i : ℕ) (logs : Logs) (s s₁ s₂ : Events S)
      → (task_at s.sched.tasks i).state ≢ dead
      → Checked time i 0 4 logs s s₁
      → AllChecked time left
          (i + 1)
          (append_all
            (task_at s.sched.tasks i).event_buffer
            (due_events time (task_at s.sched.tasks i).timers 0 4)
            logs)
          s₁
          s₂
      → AllChecked time (suc left) i logs s s₂
  unfolding all_logs
  checked time left i logs s s₁ s₂ living c b =
      let task = task_at s.sched.tasks i in
      let logs' = append_all task.event_buffer (due_events time task.timers 0 4) logs in
      let alive : (task.state == dead) ≡ false = ground arith in
      record {
        logged = simp alive (
            subst (λ (ls : Logs). Refines ls s₂)
              (all_logs-eq time left (i + 1) s₁.sched.tasks s.sched.tasks logs'
                (λ j le. c.others j (omega arith)))
              b.logged);
        fires = λ j u lo hi living' inside. elim (ℕ_discrete j i) [
          | yes same ↦
              subst (λ (k : ℕ). timer_at s₂ k u ≡ fired time (timer_at s k u)) (sym same)
                (ap (λ (x : Task). get_or x.timers u no_timer) (b.unchanged i (inl (omega arith)))
                  ∙ c.fires u (omega arith) (omega arith))
          | no ne ↦
              b.fires j u (omega arith) (omega arith)
                (λ dying. living' (ap Task.state (sym (c.others j ne)) ∙ dying)) inside
              ∙ ap (λ (x : Task). fired time (get_or x.timers u no_timer)) (c.others j ne)
        ];
        unchanged = λ j out. elim out [
          | inl lt ↦ b.unchanged j (inl (omega arith)) ∙ c.others j (omega arith)
          | inr dying ↦
              let ne : j ≢ i = λ same.
                living (subst (λ (k : ℕ). (task_at s.sched.tasks k).state ≡ dead) same dying) in
              b.unchanged j (inr (ap Task.state (c.others j ne) ∙ dying)) ∙ c.others j ne
        ];
      }

  check_tasks_from-AllChecked :
      (time left i : ℕ) (logs : Logs) (s : Events S)
      → i + left ≤ max_tasks
      → Refines logs s
      → AllCanFire time s
      → Returns (check_tasks_from time left i s) (AllChecked time left i logs s)
  unfolding check_tasks_from all_logs
  check_tasks_from-AllChecked time zero i logs s small r can = record {
    logged = r;
    fires = λ j u lo hi living inside. absurd (omega arith);
    unchanged = λ j out. refl;
  }
  check_tasks_from-AllChecked time (suc left) i logs s small r can =
      elim (Bool-cases ((task_at s.sched.tasks i).state == dead)) [
        | inl e ↦ simp e (
            Returns-map (check_tasks_from time left (i + 1) s) _ _
              (check_tasks_from-AllChecked time left (i + 1) logs s (omega arith) r can)
              (λ s' b. skipped time left i logs s s' e b))
        | inr e ↦
            let living : (task_at s.sched.tasks i).state ≢ dead = ground arith in
            let task = task_at s.sched.tasks i in
            let logs' = append_all task.event_buffer (due_events time task.timers 0 4) logs in
            simp e (
              Returns-bind (check_timers_from time i 4 0 s) _ (Checked time i 0 4 logs s) _
                (check_timers_from-Checked time i 4 0 logs s r (can i (omega arith) living))
                (λ s₁ c.
                  Returns-map (check_tasks_from time left (i + 1) s₁) _ _
                    (check_tasks_from-AllChecked time left (i + 1) logs' s₁ (omega arith) c.logged
                      (AllCanFire-kept time i logs s s₁ (omega arith) living c can))
                    (λ s₂ b. checked time left i logs s s₁ s₂ living c b)))
      ]

  -- When the buffers hold the last 256 events of their logs, and each task with a due timer can
  -- receive its event, `check_event_timers` returns. The logs are longer by one event for each due
  -- timer of a task that is not dead, in the order of the tasks and of their timers, and the buffers
  -- hold the last 256 events again; each due timer has moved on by its interval and each other of
  -- these tasks is as it was, and dead tasks are unchanged.
  pub check_event_timers-AllChecked :
      (time : ℕ) (logs : Logs) (s : Events S)
      → Refines logs s
      → AllCanFire time s
      → Returns (check_event_timers time s) (AllChecked time 64 0 logs s)
  unfolding check_event_timers
  check_event_timers-AllChecked time logs s r can =
      check_tasks_from-AllChecked time 64 0 logs s (omega arith) r can
