-- ===== src/Console/Prompt.antt =====
-- kernel/console.c, the prompt as a line of text, and what leaves it as it is.
use quad_os.Base.{
  ℕ, zero, suc, ◌+◌, ◌-◌, ◌*◌, ◌%◌, leb, ◌<◌, ◌≡◌, ◌≢◌, inl, inr, refl, sym, ap, ◌∙◌, subst, List,
  [], ◌∷◌, ◌++◌, ◌==◌, Bool-cases, get_or, set, get_or-set_self, get_or-set_ne, get_or-replicate,
  length, length-set, length-replicate, length-append, get_or-append_left, get_or-append_last,
  ℕ_discrete, arith,
}
use quad_os.Console.{
  Console, backspace, line_feed, prompt_size, vga_write_char, vga_newline, vga_scroll_up,
  update_cursor_pos, write_string, console_print, clear_prompt,
}

-- The buffer shows the text: its bytes come first, and behind it there are zeros, but for the byte
-- right behind it, which the next key overwrites; the last byte is always 0.
pub record Shows (text buffer : List ℕ) (pos : ℕ) : Type 0 where
  pub size : length buffer ≡ prompt_size
  pub position : pos ≡ length text
  pub room : length text < prompt_size
  pub bytes : (i : ℕ) → i < length text → get_or buffer i 0 ≡ get_or text i 0
  pub zeros : (i : ℕ) → length text < i → get_or buffer i 0 ≡ 0
  pub ended : get_or buffer (prompt_size - 1) 0 ≡ 0

abbrev pub ShowsText : List ℕ → Console → Type 0
ShowsText text k = Shows text k.prompt_buffer k.prompt_pos

-- The text without its last character.
unfoldable pub drop_last : List ℕ → List ℕ
drop_last [] = []
drop_last (c ∷ []) = []
drop_last (c ∷ (d ∷ cs)) = c ∷ drop_last (d ∷ cs)

length-drop_last : (c : ℕ) (cs : List ℕ) → length (drop_last (c ∷ cs)) ≡ length cs
unfolding drop_last
length-drop_last c [] = refl
length-drop_last c (d ∷ cs) = ap suc (length-drop_last d cs)

get_or-drop_last :
    (cs : List ℕ) (i : ℕ) → i < length (drop_last cs) → get_or (drop_last cs) i 0 ≡ get_or cs i 0
unfolding drop_last
get_or-drop_last [] i h = elim h [ ]
get_or-drop_last (c ∷ []) i h = elim h [ ]
get_or-drop_last (c ∷ (d ∷ cs)) zero h = refl
get_or-drop_last (c ∷ (d ∷ cs)) (suc i) h = get_or-drop_last (d ∷ cs) i (omega arith)

pub clear_prompt-Shows : (k : Console) → ShowsText [] (clear_prompt k)
unfolding clear_prompt
clear_prompt-Shows k = record {
  size = length-replicate prompt_size 0;
  position = refl;
  room = omega arith;
  bytes = λ i h. absurd (omega arith);
  zeros = λ i h. get_or-replicate prompt_size i 0;
  ended = get_or-replicate prompt_size (prompt_size - 1) 0;
}

pub typed-Shows :
    (text buffer : List ℕ) (pos c : ℕ)
    → Shows text buffer pos
    → pos ≢ prompt_size - 1
    → Shows (text ++ (c ∷ [])) (set buffer pos c) (pos + 1)
typed-Shows text buffer pos c h ne =
    let longer : length (text ++ (c ∷ [])) ≡ length text + 1 = length-append text (c ∷ []) in
    record {
      size = length-set buffer pos c ∙ h.size;
      position = omega (arith, longer, h.position);
      room = omega (arith, longer, h.position, h.room, ne);
      bytes = λ i small. elim (ℕ_discrete i pos) [
        | yes e ↦
            subst (λ (k : ℕ). get_or (set buffer pos c) k 0 ≡ get_or (text ++ (c ∷ [])) k 0) (sym e)
              (get_or-set_self buffer pos c 0 (omega (arith, h.size, h.position, h.room))
                ∙ sym (get_or-append_last text c 0)
                ∙ ap (λ (k : ℕ). get_or (text ++ (c ∷ [])) k 0) (sym h.position))
        | no other ↦
            get_or-set_ne buffer pos i c 0 (λ same. other (sym same))
            ∙ h.bytes i (omega (arith, longer, h.position))
            ∙ sym (get_or-append_left text (c ∷ []) i 0 (omega (arith, longer, h.position)))
      ];
      zeros = λ i past.
          get_or-set_ne buffer pos i c 0 (omega (arith, longer, h.position))
          ∙ h.zeros i (omega (arith, longer));
      ended = get_or-set_ne buffer pos (prompt_size - 1) c 0 ne ∙ h.ended;
    }

pub erased-Shows :
    (c : ℕ) (cs buffer : List ℕ) (pos : ℕ)
    → Shows (c ∷ cs) buffer pos
    → Shows (drop_last (c ∷ cs)) (set buffer pos 0) (pos - 1)
erased-Shows c cs buffer pos h =
    let shorter = length-drop_last c cs in
    record {
      size = length-set buffer pos 0 ∙ h.size;
      position = omega (arith, shorter, h.position);
      room = omega (arith, shorter, h.room);
      bytes = λ i small.
          get_or-set_ne buffer pos i 0 0 (omega (arith, shorter, h.position))
          ∙ h.bytes i (omega (arith, shorter))
          ∙ sym (get_or-drop_last (c ∷ cs) i small);
      zeros = λ i past. zeroed i (λ ne. h.zeros i (omega (arith, shorter, h.position)));
      ended = zeroed (prompt_size - 1) (λ ne. h.ended);
    }
  where
    zeroed : (i : ℕ) → (i ≢ pos → get_or buffer i 0 ≡ 0) → get_or (set buffer pos 0) i 0 ≡ 0
    zeroed i z = elim (ℕ_discrete i pos) [
      | yes e ↦
          subst (λ (k : ℕ). get_or (set buffer pos 0) k 0 ≡ 0) (sym e)
            (get_or-set_self buffer pos 0 0 (omega (arith, h.size, h.position, h.room)))
      | no ne ↦ get_or-set_ne buffer pos i 0 0 (λ same. ne (sym same)) ∙ z ne
    ]

-- Output leaves the prompt as it is.
abbrev SamePrompt : Console → Console → Type 0
SamePrompt k k' = (k'.prompt_buffer ≡ k.prompt_buffer) × (k'.prompt_pos ≡ k.prompt_pos)

vga_newline-SamePrompt : (k : Console) → SamePrompt k (vga_newline k)
unfolding vga_newline vga_scroll_up
vga_newline-SamePrompt k = elim (Bool-cases (leb k.height ((k.cursor_y + 1) % 65536))) [
  | inl e ↦ simp e (refl, refl)
  | inr e ↦ simp e (refl, refl)
]

pub vga_write_char-SamePrompt : (c : ℕ) (k : Console) → SamePrompt k (vga_write_char c k)
unfolding vga_write_char
vga_write_char-SamePrompt c k =
    let x = (k.cursor_x + 1) % 65536 in
    let written = record k {
      buffer = set k.buffer ((k.cursor_x + k.cursor_y * k.width) * 2) c;
      cursor_x = x;
    } in
    elim (Bool-cases (c == line_feed)) [
      | inl e ↦ simp e (vga_newline-SamePrompt k)
      | inr e ↦ elim (Bool-cases (c == backspace)) [
        | inl b ↦ simp (e, b) (refl, refl)
        | inr b ↦ elim (Bool-cases (x == k.width)) [
          | inl w ↦ simp (e, b, w) (vga_newline-SamePrompt written)
          | inr w ↦ simp (e, b, w) (refl, refl)
        ]
      ]
    ]

write_string-SamePrompt : (cs : List ℕ) (k : Console) → SamePrompt k (write_string cs k)
unfolding write_string
write_string-SamePrompt [] k = (refl, refl)
write_string-SamePrompt (c ∷ cs) k =
    let one = vga_write_char-SamePrompt c k in
    let rest = write_string-SamePrompt cs (vga_write_char c k) in
    elim (Bool-cases (c == 0)) [
      | inl e ↦ simp e (refl, refl)
      | inr e ↦ simp e (rest.0 ∙ one.0, rest.1 ∙ one.1)
    ]

pub ShowsText-same :
    (text : List ℕ) (k k' : Console) → SamePrompt k k' → ShowsText text k → ShowsText text k'
ShowsText-same text k k' same h =
    subst (λ (b : List ℕ). Shows text b k'.prompt_pos) (sym same.0)
      (subst (λ (pos : ℕ). Shows text k.prompt_buffer pos) (sym same.1) h)

pub console_print-Shows :
    (text cs : List ℕ) (k : Console) → ShowsText text k → ShowsText text (console_print cs k)
unfolding console_print update_cursor_pos
console_print-Shows text cs k h =
    ShowsText-same text k (write_string cs k) (write_string-SamePrompt cs k) h
