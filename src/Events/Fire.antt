-- ===== src/Events/Fire.antt =====
-- kernel/events.c, `check_event_timers`: which timers fire, against an independent description.
use quad_os.Base.{
  ℕ, Bool, leb, ◌&&◌, ◌%◌, ◌^◌, zero, suc, ◌+◌, ◌≤◌, ◌<◌, ◌≡◌, ◌≢◌, ◌⊎◌, refl, sym, ap, ◌∙◌, subst,
  true, false, List, [], ◌∷◌, inl, inr, ◌==◌, Bool-cases, dec_le, if◌then◌else◌, get_or,
  get_or_beyond, set, get_or-set_self, get_or-set_ne, length, length-set, Outcome, ok, Returns,
  arith,
}
use quad_os.Tasks.{Task, Timer, task_at, dead, no_timer, no_task}
use quad_os.Events.{Event, Events, send_event_to_task, woken}
use quad_os.Events.Timers.{timer_at, due, timer_event, advanced, set_timer, check_timer}
use quad_os.Events.Buffer.{
  Logs, append_log, Refines, Receives, sent_state, Sent, send_event_to_task-Sent,
  send_event_to_task-eq,
}

-- A timer is due when it is active and its time has come; it moves on by its interval.
abbrev pub is_due : ℕ → Timer → Bool
is_due time timer = timer.active && leb timer.next_fire time

abbrev pub fired : ℕ → Timer → Timer
fired time timer =
    let next = record timer { next_fire = (timer.next_fire + timer.interval) % 2 ^ 64 } in
    if is_due time timer then next else timer

-- What a program is told of the timer `t`.
abbrev pub timer_note : ℕ → Timer → Event
timer_note t timer = record { type = 4; data0 = t; data1 = timer.next_fire % 2 ^ 32; data2 = 0 }

-- The events of the timers that are due, of `left` timers from the timer `t` on.
unfoldable pub due_events : ℕ → List Timer → ℕ → ℕ → List Event
due_events time timers t zero = []
due_events time timers t (suc left) =
    let rest = due_events time timers (t + 1) left in
    let timer = get_or timers t no_timer in
    if is_due time timer then timer_note t timer ∷ rest else rest

unfoldable pub append_all : ℕ → List Event → Logs → Logs
append_all addr [] logs = logs
append_all addr (e ∷ es) logs = append_all addr es (append_log addr e logs)

due-inside :
    (time : ℕ) (timers : List Timer) (t : ℕ)
    → due time (get_or timers t no_timer) ≡ true
    → t < length timers
due-inside time timers t e = elim (dec_le (length timers) t) [
  | yes far ↦ absurd (idle (get_or timers t no_timer) (get_or_beyond timers t no_timer far) e)
  | no near ↦ omega arith
]
  where
    idle : (x : Timer) → x ≡ no_timer → due time x ≡ true → ⊥
    idle x same h = no_due (sym (ap (λ (y : Timer). due time y) same) ∙ h)
      where
        no_due : due time no_timer ≡ true → ⊥
        no_due bad = cc

-- What the checks keep of a task.
abbrev pub SameTask : Task → Task → Type 0
SameTask x y = (y.id ≡ x.id) × (y.event_buffer ≡ x.event_buffer) × (x.state ≢ dead → y.state ≢ dead)

SameTask-woken :
    (x : Task) (timers : List Timer) → SameTask x (record (woken x) { timers = timers })
SameTask-woken x timers = elim (Bool-cases (x.state == 3)) [
  | inl e ↦ simp e (refl, refl, λ living wrong. absurd (omega arith))
  | inr e ↦ simp e (refl, refl, λ living. living)
]

timers-woken : (x : Task) → (woken x).timers ≡ x.timers
timers-woken x = elim (Bool-cases (x.state == 3)) [ inl e ↦ simp e refl | inr e ↦ simp e refl ]

module _ {S : Type 0} where
  -- What a loop over `left` timers of the task in slot `i`, from the timer `t` on, does.
  pub record Checked (time i t left : ℕ) (logs : Logs) (s s' : Events S) : Type 0 where
    pub logged :
        Refines
          (append_all
            (task_at s.sched.tasks i).event_buffer
            (due_events time (task_at s.sched.tasks i).timers t left)
            logs)
          s'
    pub fires : (u : ℕ) → t ≤ u → u < t + left → timer_at s' i u ≡ fired time (timer_at s i u)
    pub waits : (u : ℕ) → (u < t) ⊎ (t + left ≤ u) → timer_at s' i u ≡ timer_at s i u
    pub kept : SameTask (task_at s.sched.tasks i) (task_at s'.sched.tasks i)
    pub others : (j : ℕ) → j ≢ i → task_at s'.sched.tasks j ≡ task_at s.sched.tasks j
    pub table : length s'.sched.tasks ≡ length s.sched.tasks

  -- A due timer belongs to a task that can receive its event.
  abbrev pub CanFire : ℕ → ℕ → Events S → Type 0
  CanFire time i s =
      ((task_at s.sched.tasks i).id ≡ i + 1000)
      × ((t : ℕ) → due time (timer_at s i t) ≡ true → Receives i s)

  module _ (time i t : ℕ) (logs : Logs) (s : Events S) (r : Refines logs s)
      (can : CanFire time i s) where
    abbrev task : Task
    task = task_at s.sched.tasks i

    abbrev timer : Timer
    timer = get_or task.timers t no_timer

    at_timer : (u : ℕ) → t ≤ u → u < t + 1 → t ≡ u
    at_timer u lo hi = omega arith

    not_due : due time timer ≡ false → Checked time i t 1 logs s s
    unfolding due_events append_all
    not_due e = record {
      logged = simp e r;
      fires = λ u lo hi.
          subst
            (λ (k : ℕ). get_or task.timers k no_timer ≡ fired time (get_or task.timers k no_timer))
            (at_timer u lo hi) (simp e refl);
      waits = λ u out. refl;
      kept = (refl, refl, λ living. living);
      others = λ j ne. refl;
      table = refl;
    }

    abbrev sent : Events S
    sent = sent_state i (timer_event t timer) s

    abbrev fired_state : Events S
    fired_state = set_timer i t (advanced timer) sent

    module _ (e : due time timer ≡ true) where
      receives : Receives i s
      receives = can.1 t e

      sent-Sent : Sent logs i (timer_event t timer) s sent
      sent-Sent =
          let h : Returns (send_event_to_task (i + 1000) (timer_event t timer) s)
              (Sent logs i (timer_event t timer) s) =
            send_event_to_task-Sent logs i (timer_event t timer) s r receives in
          subst (λ (m : Outcome (Events S)). Returns m (Sent logs i (timer_event t timer) s))
            (send_event_to_task-eq i (timer_event t timer) s receives) h

      sends : send_event_to_task task.id (timer_event t timer) s ≡ ok sent
      sends =
          ap (λ (k : ℕ). send_event_to_task k (timer_event t timer) s) can.0
          ∙ send_event_to_task-eq i (timer_event t timer) s receives

      abbrev task' : Task
      task' = record (woken task) { timers = set task.timers t (advanced timer) }

      task-fired : task_at fired_state.sched.tasks i ≡ task'
      unfolding set_timer
      task-fired =
          get_or-set_self sent.sched.tasks i _ no_task
            (omega (arith, sent-Sent.table, receives.inside))
          ∙ ap (λ (x : Task). record x { timers = set x.timers t (advanced timer) })
              sent-Sent.receiver
          ∙ ap (λ (ts : List Timer). record (woken task) { timers = set ts t (advanced timer) })
              (timers-woken task)

      timers-fired :
          (u : ℕ)
          → timer_at fired_state i u ≡ get_or (set task.timers t (advanced timer)) u no_timer
      timers-fired u = ap (λ (x : Task). get_or x.timers u no_timer) task-fired

      fired-Checked : Checked time i t 1 logs s fired_state
      unfolding due_events append_all set_timer
      fired-Checked = record {
        logged = simp e sent-Sent.logged;
        fires = λ u lo hi.
            subst (λ (k : ℕ). timer_at fired_state i k ≡ fired time (get_or task.timers k no_timer))
              (at_timer u lo hi)
              (timers-fired t
                ∙ get_or-set_self task.timers t (advanced timer) no_timer
                    (due-inside time task.timers t e)
                ∙ simp e refl);
        waits = λ u out.
            timers-fired u
            ∙ get_or-set_ne task.timers t u (advanced timer) no_timer (λ same. ground arith);
        kept =
            subst (λ (x : Task). SameTask task x) (sym task-fired)
              (SameTask-woken task (set task.timers t (advanced timer)));
        others = λ j ne.
            get_or-set_ne sent.sched.tasks i j _ no_task (λ same. ne (sym same))
            ∙ sent-Sent.others j ne;
        table = length-set sent.sched.tasks i _ ∙ sent-Sent.table;
      }

    pub check_timer-Checked : Returns (check_timer time i t s) (Checked time i t 1 logs s)
    unfolding check_timer
    check_timer-Checked = elim (Bool-cases (due time timer)) [
      | inl e ↦ simp (e, sends e) (fired-Checked e)
      | inr e ↦ simp e (not_due e)
    ]
