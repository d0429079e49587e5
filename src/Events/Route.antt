-- ===== src/Events/Route.antt =====
-- kernel/events.c, `handle_event`: an event reaches the task whose window it is for.
use quad_os.Base.{
  ℕ, ◌+◌, ◌<◌, ◌≡◌, ◌^◌, refl, ap, subst, ◌∙◌, false, ◌||◌, inl, inr, ◌==◌, Bool-cases, Option,
  none, some, if◌then◌else◌, Outcome, ok, Returns, returned, arith,
}
use quad_os.Interrupts.{Cli, push_cli, pop_cli}
use quad_os.Interrupts.Nesting.{IsCli, Restored, pop-closes}
use quad_os.Windows.{Window, get_window}
use quad_os.Events.{
  Event, Events, event_keyboard, event_mouse_click, event_mouse_move, send_event_to_task,
}
use quad_os.Events.Handle.{Input, handle_focused, handle_event}
use quad_os.Events.Buffer.{
  Logs, Refines, Receives, Sent, sent_state, send_event_to_task-eq, send_event_to_task-Sent,
}

module _ {S D C : Type 0} (key_typed : ℕ → C → Outcome C) where
  -- The window that an event is for: a move goes to the one under the pointer, a click or a key to
  -- the one with the focus.
  abbrev pub receiver : Event → Input S D C → Option Window
  receiver event s =
      if event.type == event_mouse_move
      then get_window s.desktop.windows s.window_under_cursor
      else if event.type == event_mouse_click || event.type == event_keyboard
      then get_window s.desktop.windows s.desktop.focused_window
      else none

  abbrev with_cli : Input S D C → Cli → Input S D C
  with_cli s cli = record s {
    events = record s.events { sched = record s.events.sched { cli = cli } };
  }

  module _ (logs : Logs) (event : Event) (s : Input S D C) (w : Window) (i : ℕ)
      (r : Refines logs s.events) (owned : w.owner_task_id ≡ i + 1000)
      (h : Receives i s.events) where
    abbrev s₀ : Input S D C
    s₀ = with_cli s (push_cli s.events.sched.cli)

    h₀ : Receives i s₀.events
    h₀ = record {
      not_root = h.not_root;
      inside = h.inside;
      small = h.small;
      living = h.living;
      buffered = h.buffered;
    }

    sends : send_event_to_task w.owner_task_id event s₀.events ≡ ok (sent_state i event s₀.events)
    sends =
        ap (λ (k : ℕ). send_event_to_task k event s₀.events) owned
        ∙ send_event_to_task-eq i event s₀.events h₀

    -- After the section is closed with the state `c`.
    abbrev routed : Cli → Input S D C
    routed c = with_cli (record s₀ { events = sent_state i event s₀.events }) c

    routed-Sent : (c : Cli) → Sent logs i event s.events (routed c).events
    routed-Sent c =
        let g : Returns (send_event_to_task (i + 1000) event s₀.events)
            (Sent logs i event s₀.events) =
          send_event_to_task-Sent logs i event s₀.events r h₀ in
        let a : Sent logs i event s₀.events (sent_state i event s₀.events) =
          subst (λ (m : Outcome (Events S)). Returns m (Sent logs i event s₀.events))
            (send_event_to_task-eq i event s₀.events h₀) g in
        record { logged = a.logged; receiver = a.receiver; others = a.others; table = a.table }

    focused-sent :
        get_window s.desktop.windows s.desktop.focused_window ≡ some w
        → handle_focused key_typed event s₀
          ≡ ok (record s₀ { events = sent_state i event s₀.events })
    unfolding handle_focused
    focused-sent found = rw (found, sends, handle_focused) refl

    handle_event-routed :
        (c : Cli)
        → receiver event s ≡ some w
        → pop_cli (push_cli s.events.sched.cli) ≡ ok c
        → handle_event key_typed event s ≡ ok (routed c)
    unfolding handle_event
    handle_event-routed c found popped = elim (Bool-cases (event.type == event_mouse_move)) [
      | inl m ↦
          let other : (event.type == event_mouse_click || event.type == event_keyboard) ≡ false =
            ground arith in
          let found' : get_window s.desktop.windows s.window_under_cursor ≡ some w =
            simp m at found in
          simp (m, other, found', sends, popped) refl
      | inr m ↦
          elim (Bool-cases (event.type == event_mouse_click || event.type == event_keyboard)) [
            | inl k ↦
                let found' : get_window s.desktop.windows s.desktop.focused_window ≡ some w =
                  simp (m, k) at found in
                simp (m, k, focused-sent found', popped) refl
            | inr k ↦ absurd (no_window (simp (m, k) at found))
          ]
    ]
      where
        no_window : none ≡ some w → ⊥
        no_window e = cc

    -- When the buffers hold the last 256 events of their logs, interrupts are off inside critical
    -- sections and those are not nested so deep that the level overflows, and an event is for a window
    -- of a task that can receive events, `handle_event` returns: the event is sent to that task and to
    -- no other, and interrupts, the level and the console are as they were.
    pub handle_event-Sent :
        receiver event s ≡ some w
        → IsCli s.events.sched.cli
        → s.events.sched.cli.cli_level + 1 < 2 ^ 31
        → Returns (handle_event key_typed event s) (λ s'.
          Sent logs i event s.events s'.events
          × Restored s.events.sched.cli s'.events.sched.cli
          × (s'.console ≡ s.console))
    handle_event-Sent found v small =
        let cli = s.events.sched.cli in
        let (c, popped, restored) = returned (pop_cli (push_cli cli)) (Restored cli) (
          pop-closes cli (push_cli cli) v small
            (record { enabled = refl; level = refl; saved = λ inside. refl })) in
        rw (handle_event-routed c found popped, Returns) (routed-Sent c, restored, refl)
