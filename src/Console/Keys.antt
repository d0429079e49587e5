-- ===== src/Console/Keys.antt =====
-- kernel/console.c, `console_key_typed`: the prompt is a line of text that keys edit.
use quad_os.Base.{
  ℕ, ◌+◌, ◌-◌, ◌≡◌, inl, inr, refl, sym, subst, Bool, true, false, List, [], ◌∷◌, ◌++◌, ◌==◌,
  ==_iff, if◌then◌else◌, Bool-cases, set, length, Outcome, ok, ◌>>=◌, Delivers, Delivers-bind,
  arith,
}
use quad_os.Console.{
  Console, backspace, line_feed, prompt_size, vga_write_char, update_cursor_pos, console_print,
  prompt_text, clear_prompt, echo_key, console_key_typed,
}
use quad_os.Console.Prompt.{
  ShowsText, drop_last, clear_prompt-Shows, typed-Shows, erased-Shows, vga_write_char-SamePrompt,
  ShowsText-same, console_print-Shows,
}

-- The line of text that the keys edit, by their specification: a backspace takes the last character away, a full
-- line takes no more, a line feed ends the line and begins an empty one.
abbrev pub edited : ℕ → List ℕ → List ℕ
edited c text =
    if c == backspace
    then drop_last text
    else if length text == prompt_size - 1
    then text
    else if c == line_feed
    then []
    else text ++ (c ∷ [])

module _ (graphics_enabled : Bool) (shell_execute : List ℕ → Console → Outcome Console)
    (E : Type 0) where
  echo_key-Shows :
      (c : ℕ) (text : List ℕ) (k : Console)
      → (c == line_feed) ≡ false
      → ShowsText text k
      → Delivers E (echo_key graphics_enabled shell_execute c k) (ShowsText text)
  unfolding echo_key update_cursor_pos
  echo_key-Shows c text k e h =
      let same = ShowsText-same text k (vga_write_char c k) (vga_write_char-SamePrompt c k) h in
      elim (Bool-cases graphics_enabled) [ inl g ↦ simp (e, g) same | inr g ↦ simp (e, g) same ]

  echo_key-enter :
      (text : List ℕ) (k : Console)
      → ShowsText text k
      → ((k' : Console)
          → ShowsText text k'
          → Delivers E (shell_execute k'.prompt_buffer k') (λ _. Unit))
      → Delivers E (echo_key graphics_enabled shell_execute line_feed k) (ShowsText [])
  unfolding echo_key update_cursor_pos
  echo_key-enter text k h shell =
      let written = vga_write_char line_feed k in
      let entered = λ (k' : Console). console_print prompt_text (clear_prompt k') in
      Delivers-bind E (shell_execute written.prompt_buffer written >>= λ k'. ok (entered k')) _
        (ShowsText []) (ShowsText [])
        (Delivers-bind E (shell_execute written.prompt_buffer written) (λ k'. ok (entered k'))
          (λ _. Unit) (ShowsText [])
          (shell written (ShowsText-same text k written (vga_write_char-SamePrompt line_feed k) h))
          (λ k' _. console_print-Shows [] prompt_text (clear_prompt k') (clear_prompt-Shows k')))
        (λ k' shows. elim (Bool-cases graphics_enabled) [
          | inl g ↦ simp g shows
          | inr g ↦ simp g shows
        ])

  erase :
      (text : List ℕ) (k : Console)
      → ShowsText text k
      → Delivers E
          (console_key_typed graphics_enabled shell_execute backspace k)
          (ShowsText (drop_last text))
  unfolding console_key_typed drop_last
  erase [] k h = let start : (k.prompt_pos == 0) ≡ true = ground (arith, h.position) in simp start h
  erase (c ∷ cs) k h =
      let later : (k.prompt_pos == 0) ≡ false = ground (arith, h.position) in
      simp later (
        echo_key-Shows backspace (drop_last (c ∷ cs))
          (record k {
            prompt_buffer = set k.prompt_buffer k.prompt_pos 0;
            prompt_pos = k.prompt_pos - 1;
          })
          refl (erased-Shows c cs k.prompt_buffer k.prompt_pos h))

  enter :
      (text : List ℕ) (k : Console)
      → ShowsText text k
      → (k.prompt_pos == prompt_size - 1) ≡ false
      → ((k' : Console)
          → ShowsText (text ++ (line_feed ∷ [])) k'
          → Delivers E (shell_execute k'.prompt_buffer k') (λ _. Unit))
      → Delivers E (console_key_typed graphics_enabled shell_execute line_feed k) (ShowsText [])
  unfolding console_key_typed
  enter text k h short shell = simp short (
      echo_key-enter (text ++ (line_feed ∷ []))
        (record k {
          prompt_buffer = set k.prompt_buffer k.prompt_pos line_feed;
          prompt_pos = k.prompt_pos + 1;
        })
        (typed-Shows text k.prompt_buffer k.prompt_pos line_feed h (ground arith)) shell)

  -- When the prompt shows a text, `console_key_typed` edits it: the prompt then shows the text that the
  -- specification gives. The shell is run only on a buffer that shows the text and a line feed, and the
  -- key returns unless the shell stops the machine.
  pub console_key_typed-Shows :
      (c : ℕ) (text : List ℕ) (k : Console)
      → ShowsText text k
      → ((k' : Console)
          → ShowsText (text ++ (line_feed ∷ [])) k'
          → Delivers E (shell_execute k'.prompt_buffer k') (λ _. Unit))
      → Delivers E
          (console_key_typed graphics_enabled shell_execute c k)
          (ShowsText (edited c text))
  unfolding console_key_typed
  console_key_typed-Shows c text k h shell = elim (Bool-cases (c == backspace)) [
    | inl b ↦
        subst
          (λ (d : ℕ).
            Delivers E (console_key_typed graphics_enabled shell_execute d k)
              (ShowsText (edited d text)))
          (sym ((==_iff c backspace).0 b)) (erase text k h)
    | inr b ↦ elim (Bool-cases (k.prompt_pos == prompt_size - 1)) [
      | inl full ↦
          let full' : (length text == 255) ≡ true = ground (arith, h.position) in
          simp (b, full, full') h
      | inr short ↦
          let short' : (length text == 255) ≡ false = ground (arith, h.position) in
          elim (Bool-cases (c == line_feed)) [
            | inl e ↦
                subst
                  (λ (d : ℕ).
                    Delivers E (console_key_typed graphics_enabled shell_execute d k)
                      (ShowsText (edited d text)))
                  (sym ((==_iff c line_feed).0 e)) (simp short' (enter text k h short shell))
            | inr e ↦
                simp (b, short, short', e)
                  (echo_key-Shows c (text ++ (c ∷ []))
                    (record k {
                      prompt_buffer = set k.prompt_buffer k.prompt_pos c;
                      prompt_pos = k.prompt_pos + 1;
                    })
                    e (typed-Shows text k.prompt_buffer k.prompt_pos c h (ground arith)))
          ]
    ]
  ]
