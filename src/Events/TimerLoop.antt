-- ===== src/Events/TimerLoop.antt =====
-- kernel/events.c, `check_event_timers`: its loop over the timers of a task.
use quad_os.Base.{
  ℕ, zero, suc, ◌+◌, ◌≤◌, ◌≡◌, refl, sym, ap, ◌∙◌, subst, true, ◌&&◌, List, [], ◌∷◌, inl, inr, leb,
  ltb, Bool-cases, ℕ_discrete, get_or, length, ◌++◌, Returns, Returns-bind, Returns-map, arith,
}
use quad_os.Tasks.{Timer, task_at, no_timer}
use quad_os.Events.{Event, Events}
use quad_os.Events.Timers.{timer_at, due, check_timer, check_timers_from}
use quad_os.Events.Buffer.{Logs, append_log, Refines, Receives}
use quad_os.Events.Fire.{
  fired, due_events, append_all, SameTask, Checked, CanFire, check_timer-Checked,
}

due-fired : (time : ℕ) (x : Timer) → due time (fired time x) ≡ true → due time x ≡ true
due-fired time x h = elim (Bool-cases (due time x)) [
  | inl e ↦ e
  | inr e ↦
      let same : fired time x ≡ x = simp e refl in
      absurd (cc (sym (ap (λ (y : Timer). due time y) same) ∙ h, e))
]

due_events-eq :
    (time : ℕ) (xs ys : List Timer) (t left : ℕ)
    → ((u : ℕ) → t ≤ u → get_or xs u no_timer ≡ get_or ys u no_timer)
    → due_events time xs t left ≡ due_events time ys t left
unfolding due_events
due_events-eq time xs ys t zero h = refl
due_events-eq time xs ys t (suc left) h =
    rw (h t (omega arith), due_events-eq time xs ys (t + 1) left (λ u le. h u (omega arith))) refl

append_all-append :
    (addr : ℕ) (es fs : List Event) (logs : Logs)
    → append_all addr (es ++ fs) logs ≡ append_all addr fs (append_all addr es logs)
unfolding append_all
append_all-append addr [] fs logs = refl
append_all-append addr (e ∷ es) fs logs = append_all-append addr es fs (append_log addr e logs)

due_events-suc :
    (time : ℕ) (timers : List Timer) (t left : ℕ)
    → due_events time timers t (suc left)
      ≡ due_events time timers t 1 ++ due_events time timers (t + 1) left
unfolding due_events
due_events-suc time timers t left = elim (Bool-cases (due time (get_or timers t no_timer))) [
  | inl e ↦ simp e refl
  | inr e ↦ simp e refl
]

module _ {S : Type 0} where
  pub Receives-kept :
      (i : ℕ) (s s' : Events S)
      → SameTask (task_at s.sched.tasks i) (task_at s'.sched.tasks i)
      → length s'.sched.tasks ≡ length s.sched.tasks
      → Receives i s
      → Receives i s'
  Receives-kept i s s' same table h = record {
    not_root = h.not_root;
    inside = omega (arith, table, h.inside);
    small = omega (arith, table, h.small);
    living = same.2 h.living;
    buffered = λ e. h.buffered (sym same.1 ∙ e);
  }

  -- The loops one after the other, the first over one timer.
  pub Checked-then :
      (time i t left : ℕ) (logs : Logs) (s s₁ s₂ : Events S)
      → Checked time i t 1 logs s s₁
      → Checked time i
          (t + 1)
          left
          (append_all
            (task_at s.sched.tasks i).event_buffer
            (due_events time (task_at s.sched.tasks i).timers t 1)
            logs)
          s₁
          s₂
      → Checked time i t (suc left) logs s s₂
  Checked-then time i t left logs s s₁ s₂ a b =
      let task = task_at s.sched.tasks i in
      record {
        logged =
            subst (λ (es : List Event). Refines (append_all task.event_buffer es logs) s₂)
              (sym (due_events-suc time task.timers t left))
              (subst (λ (ls : Logs). Refines ls s₂)
                (sym (
                  append_all-append task.event_buffer (due_events time task.timers t 1)
                    (due_events time task.timers (t + 1) left) logs))
                (subst
                  (λ (es : List Event).
                    Refines
                      (append_all task.event_buffer es
                        (append_all task.event_buffer (due_events time task.timers t 1) logs))
                      s₂)
                  (due_events-eq time (task_at s₁.sched.tasks i).timers task.timers (t + 1) left
                    (λ u le. a.waits u (inr le)))
                  (subst
                    (λ (addr : ℕ).
                      Refines
                        (append_all addr
                          (due_events time (task_at s₁.sched.tasks i).timers (t + 1) left)
                          (append_all task.event_buffer (due_events time task.timers t 1) logs))
                        s₂)
                    a.kept.1 b.logged)));
        fires = λ u lo hi. elim (ℕ_discrete t u) [
          | yes same ↦ b.waits u (inl (omega arith)) ∙ a.fires u lo (omega arith)
          | no ne ↦
              b.fires u (omega arith) (omega arith)
              ∙ ap (fired time) (a.waits u (inr (omega arith)))
        ];
        waits = λ u out. b.waits u (ground arith) ∙ a.waits u (ground arith);
        kept = (b.kept.0 ∙ a.kept.0, b.kept.1 ∙ a.kept.1, λ living. b.kept.2 (a.kept.2 living));
        others = λ j ne. b.others j ne ∙ a.others j ne;
        table = b.table ∙ a.table;
      }

  pub CanFire-kept :
      (time i t left : ℕ) (logs : Logs) (s s' : Events S)
      → Checked time i t left logs s s'
      → CanFire time i s
      → CanFire time i s'
  CanFire-kept time i t left logs s s' c can =
      (c.kept.0 ∙ can.0, λ u h. Receives-kept i s s' c.kept c.table (can.1 u (was_due u h)))
    where
      was_due : (u : ℕ) → due time (timer_at s' i u) ≡ true → due time (timer_at s i u) ≡ true
      was_due u h = elim (Bool-cases (leb t u && ltb u (t + left))) [
        | inl e ↦
            due-fired time (timer_at s i u)
              (ap (λ (x : Timer). due time x) (sym (c.fires u (ground arith) (ground arith))) ∙ h)
        | inr e ↦ ap (λ (x : Timer). due time x) (sym (c.waits u (ground arith))) ∙ h
      ]

  pub check_timers_from-Checked :
      (time i left t : ℕ) (logs : Logs) (s : Events S)
      → Refines logs s
      → CanFire time i s
      → Returns (check_timers_from time i left t s) (Checked time i t left logs s)
  unfolding check_timers_from due_events append_all
  check_timers_from-Checked time i zero t logs s r can = record {
    logged = r;
    fires = λ u lo hi. absurd (omega arith);
    waits = λ u out. refl;
    kept = (refl, refl, λ living. living);
    others = λ j ne. refl;
    table = refl;
  }
  check_timers_from-Checked time i (suc left) t logs s r can =
      let task = task_at s.sched.tasks i in
      Returns-bind (check_timer time i t s) _ (Checked time i t 1 logs s) _
        (check_timer-Checked time i t logs s r can)
        (λ s₁ c.
          Returns-map (check_timers_from time i left (t + 1) s₁) _ _
            (check_timers_from-Checked time i left (t + 1)
              (append_all task.event_buffer (due_events time task.timers t 1) logs) s₁ c.logged
              (CanFire-kept time i t 1 logs s s₁ c can))
            (λ s₂ d. Checked-then time i t left logs s s₁ s₂ c d))
