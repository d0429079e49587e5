-- ===== src/Console/Cursor.antt =====
-- kernel/console.c: when the cursor stays on the screen.
use quad_os.Base.{
  ℕ, ◌+◌, ◌*◌, ◌%◌, ◌<◌, ◌≡◌, ◌≢◌, ◌⊎◌, ◌↔◌, inl, inr, refl, List, [], ◌∷◌, ◌==◌, leb, Bool-cases,
  set, arith,
}
use quad_os.Console.{
  Console, backspace, line_feed, vga_write_char, vga_newline, vga_scroll_up, write_string,
  console_print, update_cursor_pos,
}

-- The size is that of a screen, and the cursor is inside it.
pub record OnScreen (k : Console) : Type 0 where
  pub columns : (1 < k.width) × (k.width < 65536)
  pub rows : (0 < k.height) × (k.height < 65536)
  pub column : k.cursor_x < k.width
  pub row : k.cursor_y < k.height

vga_newline-OnScreen :
    (k : Console)
    → (1 < k.width) × (k.width < 65536)
    → (0 < k.height) × (k.height < 65536)
    → k.cursor_y < k.height
    → OnScreen (vga_newline k)
unfolding vga_newline vga_scroll_up
vga_newline-OnScreen k columns rows row =
    elim (Bool-cases (leb k.height ((k.cursor_y + 1) % 65536))) [
      | inl e ↦ simp e (record {
        columns = columns;
        rows = rows;
        column = omega arith;
        row = ground (arith, row, rows);
      })
      | inr e ↦
          simp e
            (record { columns = columns; rows = rows; column = omega arith; row = ground arith })
    ]

-- From a cursor on the screen, a character leaves the cursor on the screen exactly when it is not a
-- backspace in the first column.
pub vga_write_char-OnScreen_iff :
    (c : ℕ) (k : Console)
    → OnScreen k
    → OnScreen (vga_write_char c k) ↔ ((c ≢ backspace) ⊎ (0 < k.cursor_x))
unfolding vga_write_char
vga_write_char-OnScreen_iff c k v =
    let x = (k.cursor_x + 1) % 65536 in
    let written = record k {
      buffer = set k.buffer ((k.cursor_x + k.cursor_y * k.width) * 2) c;
      cursor_x = x;
    } in
    elim (Bool-cases (c == line_feed)) [
      | inl e ↦
          simp e (λ _. inl (λ b. ground arith), λ _. vga_newline-OnScreen k v.columns v.rows v.row)
      | inr e ↦ elim (Bool-cases (c == backspace)) [
        | inl b ↦
            simp (e, b)
              (
                λ s. inr (omega (arith, s.column, s.columns)),
                λ h. record {
                  columns = v.columns;
                  rows = v.rows;
                  column = ground (arith, h, v.column, v.columns);
                  row = v.row;
                },
              )
        | inr b ↦ elim (Bool-cases (x == k.width)) [
          | inl w ↦
              simp (e, b, w)
                (
                  λ _. inl (λ same. ground arith),
                  λ _. vga_newline-OnScreen written v.columns v.rows v.row,
                )
          | inr w ↦
              simp (e, b, w)
                (
                  λ _. inl (λ same. ground arith),
                  λ _. record {
                    columns = v.columns;
                    rows = v.rows;
                    column = ground (arith, v.column, v.columns);
                    row = v.row;
                  },
                )
        ]
      ]
    ]

-- The characters up to the byte 0 hold no backspace.
unfoldable pub NoBackspace : List ℕ → Type 0
NoBackspace [] = Unit
NoBackspace (c ∷ cs) = (c ≢ backspace) × NoBackspace cs

write_string-OnScreen :
    (cs : List ℕ) (k : Console) → NoBackspace cs → OnScreen k → OnScreen (write_string cs k)
unfolding write_string NoBackspace
write_string-OnScreen [] k h v = v
write_string-OnScreen (c ∷ cs) k h v =
    let rest =
      write_string-OnScreen cs (vga_write_char c k) h.1
        ((vga_write_char-OnScreen_iff c k v).1 (inl h.0)) in
    elim (Bool-cases (c == 0)) [ inl e ↦ simp e v | inr e ↦ simp e rest ]

-- Printing a string without backspaces leaves the cursor on the screen, and the display's cursor at the same cell.
pub console_print-OnScreen :
    (cs : List ℕ) (k : Console)
    → NoBackspace cs
    → OnScreen k
    → OnScreen (console_print cs k)
      × ((console_print cs k).vga_cursor
          ≡ ((console_print cs k).cursor_y * (console_print cs k).width
              + (console_print cs k).cursor_x)
            % 65536)
unfolding console_print update_cursor_pos
console_print-OnScreen cs k h v =
    let w = write_string-OnScreen cs k h v in
    (record { columns = w.columns; rows = w.rows; column = w.column; row = w.row }, refl)
