-- ===== src/Events/Buffer.antt =====
-- kernel/events.c: the ring buffer of a task holds the last 256 events that were sent to it.
use quad_os.Base.{
  ℕ, ◌+◌, ◌-◌, ◌%◌, ◌≤◌, ◌<◌, ◌≡◌, ◌≢◌, refl, sym, ap, subst, ℕ_discrete, ◌∙◌, true, false, ◌&&◌,
  List, [], ◌∷◌, ◌++◌, inl, inr, ◌==◌, ltb, leb, ==_iff, Bool-cases, if◌then◌else◌, get_or, set,
  get_or-set_self, get_or-set_ne, length, length-set, length-append, get_or-append_left,
  get_or-append_last, length-replicate, u32_mod, ok, Returns, kernel_assert, arith,
}
use quad_os.Tasks.{Tasks, task_at, get_task, dead, no_task}
use quad_os.Events.{
  Event, Events, EventBuffer, no_event, event_buffer_size, empty_buffer, push_event,
  send_event_to_task, woken, write_buffer,
}

-- `b` holds the last 256 events of `log`, the events sent so far, each at its place in the ring.
pub record Holds (log : List Event) (b : EventBuffer) : Type 0 where
  pub size : length b.buffer ≡ event_buffer_size
  pub count : b.num_events ≡ length log % u32_mod
  pub last :
      (i : ℕ)
      → i < length log
      → length log ≤ i + event_buffer_size
      → get_or b.buffer (i % event_buffer_size) no_event ≡ get_or log i no_event

pub empty_buffer-Holds : Holds [] empty_buffer
empty_buffer-Holds = record {
  size = length-replicate event_buffer_size no_event;
  count = refl;
  last = λ i small. absurd (omega arith);
}

-- Each of the last 256 events, the new one among them, is at its place.
newest :
    (log : List Event) (b : EventBuffer) (event : Event)
    → Holds log b
    → (i : ℕ) → i < length (log ++ (event ∷ []))
    → length (log ++ (event ∷ [])) ≤ i + event_buffer_size
    → get_or (push_event event b).buffer (i % event_buffer_size) no_event
      ≡ get_or (log ++ (event ∷ [])) i no_event
unfolding push_event
newest log b event h i small recent =
    let n = length log in
    let longer : length (log ++ (event ∷ [])) ≡ n + 1 = length-append log (event ∷ []) in
    let place = b.num_events % event_buffer_size in
    elim (ℕ_discrete i n) [
      | yes e ↦
          let same : i % event_buffer_size ≡ place = omega (arith, h.count) in
          ap (λ (k : ℕ). get_or (set b.buffer place event) k no_event) same
          ∙ get_or-set_self b.buffer place event no_event (omega (arith, h.size))
          ∙ sym (get_or-append_last log event no_event)
          ∙ ap (λ (k : ℕ). get_or (log ++ (event ∷ [])) k no_event) (sym e)
      | no ne ↦
          get_or-set_ne b.buffer place (i % event_buffer_size) event no_event
            (λ same. omega (arith, same, h.count, longer))
          ∙ h.last i (omega (arith, longer)) (omega (arith, longer))
          ∙ sym (get_or-append_left log (event ∷ []) i no_event (omega (arith, longer)))
    ]

-- One event more: it takes the place of the one that is 256 older.
pub push_event-Holds :
    (log : List Event) (b : EventBuffer) (event : Event)
    → Holds log b
    → Holds (log ++ (event ∷ [])) (push_event event b)
unfolding push_event
push_event-Holds log b event h =
    let n = length log in
    let longer : length (log ++ (event ∷ [])) ≡ n + 1 = length-append log (event ∷ []) in
    record {
      size = length-set b.buffer (b.num_events % event_buffer_size) event ∙ h.size;
      count = omega (arith, h.count, longer);
      last = λ i small recent. newest log b event h i small recent;
    }

-- The specification of the buffers: for each address the events that were sent there.
abbrev pub Logs : Type 0
Logs = ℕ → List Event

abbrev pub append_log : ℕ → Event → Logs → Logs
append_log addr event logs = λ a. if a == addr then logs a ++ (event ∷ []) else logs a

get_task-slot :
    {S : Type 0} (t : Tasks S) (i : ℕ)
    → i < length t.tasks
    → length t.tasks ≤ 64
    → get_task t (i + 1000) ≡ ok (task_at t.tasks i)
unfolding get_task kernel_assert
get_task-slot t i h small =
    let known : (leb 1000 (i + 1000) && ltb (i + 1000) 2_147_483_648) ≡ true = ground arith in
    let index : i + 1000 - 1000 ≡ i = omega arith in
    let within : ltb i (length t.tasks) ≡ true = ground arith in simp (known, index, within) refl

module _ {S : Type 0} where
  abbrev pub Refines : Logs → Events S → Type 0
  Refines logs s = (addr : ℕ) → Holds (logs addr) (s.buffers addr)

  -- After an event is sent to the task in slot `i`.
  pub record Sent (logs : Logs) (i : ℕ) (event : Event) (s s' : Events S) : Type 0 where
    pub logged : Refines (append_log (task_at s.sched.tasks i).event_buffer event logs) s'
    pub receiver : task_at s'.sched.tasks i ≡ woken (task_at s.sched.tasks i)
    pub others : (j : ℕ) → j ≢ i → task_at s'.sched.tasks j ≡ task_at s.sched.tasks j
    pub table : length s'.sched.tasks ≡ length s.sched.tasks

  -- The task in slot `i` is not the root task, is not dead and has a buffer.
  pub record Receives (i : ℕ) (s : Events S) : Type 0 where
    pub not_root : 0 < i
    pub inside : i < length s.sched.tasks
    pub small : length s.sched.tasks ≤ 64
    pub living : (task_at s.sched.tasks i).state ≢ dead
    pub buffered : (task_at s.sched.tasks i).event_buffer ≢ 0

  abbrev pub sent_state : ℕ → Event → Events S → Events S
  sent_state i event s =
      let task = task_at s.sched.tasks i in
      record {
        sched = record s.sched { tasks = set s.sched.tasks i (woken task) };
        buffers =
            write_buffer task.event_buffer (push_event event (s.buffers task.event_buffer))
              s.buffers;
      }

  pub send_event_to_task-eq :
      (i : ℕ) (event : Event) (s : Events S)
      → Receives i s
      → send_event_to_task (i + 1000) event s ≡ ok (sent_state i event s)
  unfolding send_event_to_task
  send_event_to_task-eq i event s h =
      let known : (ltb 1000 (i + 1000) && ltb (i + 1000) 2_147_483_648) ≡ true =
        ground (arith, h.not_root, h.inside, h.small) in
      let index : i + 1000 - 1000 ≡ i = omega arith in
      let within : ltb i (length s.sched.tasks) ≡ true = ground (arith, h.inside) in
      let living : ((task_at s.sched.tasks i).state == dead) ≡ false = ground (arith, h.living) in
      let buffered : ((task_at s.sched.tasks i).event_buffer == 0) ≡ false =
        ground (arith, h.buffered) in
      simp (known, get_task-slot s.sched i h.inside h.small, index, within, living, buffered) refl

  -- When the buffers hold the last 256 events of their logs, sending an event to a task of the table,
  -- other than the root task, that is not dead and has a buffer, returns. The log of its buffer is
  -- longer by the event, and the buffers hold the last 256 events again; the task is ready if it
  -- waited, and no other task changes.
  pub send_event_to_task-Sent :
      (logs : Logs) (i : ℕ) (event : Event) (s : Events S)
      → Refines logs s
      → Receives i s
      → Returns (send_event_to_task (i + 1000) event s) (Sent logs i event s)
  send_event_to_task-Sent logs i event s r h =
      let task = task_at s.sched.tasks i in
      rw (send_event_to_task-eq i event s h, Returns)
        (record {
          logged = λ addr. elim (Bool-cases (addr == task.event_buffer)) [
            | inl e ↦ simp e (
                subst
                  (λ (a : ℕ).
                    Holds (logs a ++ (event ∷ [])) (push_event event (s.buffers task.event_buffer)))
                  (sym ((==_iff addr task.event_buffer).0 e))
                  (push_event-Holds (logs task.event_buffer) (s.buffers task.event_buffer) event
                    (r task.event_buffer)))
            | inr e ↦ simp e (r addr)
          ];
          receiver = get_or-set_self s.sched.tasks i (woken task) no_task h.inside;
          others =
              λ j ne. get_or-set_ne s.sched.tasks i j (woken task) no_task (λ same. ne (sym same));
          table = length-set s.sched.tasks i (woken task);
        })
