-- ===== src/Events/Handle.antt =====
-- kernel/events.c, `handle_event`: which task an event of the mouse or the keyboard goes to.
use quad_os.Base.{
  ℕ, ◌/◌, ◌%◌, ◌^◌, not, ◌&&◌, ◌||◌, none, some, ◌==◌, if◌then◌else◌, Outcome, ok, ◌>>=◌,
}
use quad_os.Windows.{Window, Desktop, get_window}
use quad_os.Interrupts.{push_cli, pop_cli}
use quad_os.Events.{
  Event, Events, event_keyboard, event_mouse_click, event_mouse_move, send_event_to_task,
}

-- The windows (kernel/windows.c) decide which task an event is for; a key goes to the console when
-- no window has the focus. `key_typed` is `console_key_typed` of kernel/console.c.
pub record Input (S D C : Type 0) : Type 0 where
  pub events : Events S
  pub desktop : Desktop D
  pub window_under_cursor : ℕ
  pub console : C

module _ {S D C : Type 0} (key_typed : ℕ → C → Outcome C) where
  abbrev pub sent : Input S D C → Window → Event → Outcome (Input S D C)
  sent s w event = do
    events ← send_event_to_task w.owner_task_id event s.events
    ok (record s { events = events })

  -- What is done with a mouse click or a key.
  unfoldable pub handle_focused : Event → Input S D C → Outcome (Input S D C)
  handle_focused event s =
      let is_key = event.type == event_keyboard in
      let typed = event.data0 / 2 ^ 7 == 0 && not (event.data1 == 0) in
      let key = (do
        console ← key_typed (event.data1 % 2 ^ 8) s.console
        ok (record s { console = console })) in
      elim (get_window s.desktop.windows s.desktop.focused_window) [
        | some w ↦ sent s w event
        | none ↦ if is_key && typed then key else ok s
      ]

  unfoldable pub handle_event : Event → Input S D C → Outcome (Input S D C)
  handle_event event s = do
    let cli = push_cli s.events.sched.cli
    let s₀ = record s { events = record s.events { sched = record s.events.sched { cli = cli } } }
    s₁ ←
        if event.type == event_mouse_move
        then elim (get_window s₀.desktop.windows s₀.window_under_cursor) [
          | some w ↦ sent s₀ w event
          | none ↦ ok s₀
        ]
        else ok s₀
    s₂ ←
        if event.type == event_mouse_click || event.type == event_keyboard
        then handle_focused event s₁
        else ok s₁
    c ← pop_cli s₂.events.sched.cli
    ok (record s₂ { events = record s₂.events { sched = record s₂.events.sched { cli = c } } })
