-- ===== src/Console.antt =====
-- kernel/console.c: the console's screen of characters, its cursor and its prompt. The character and
-- its colour at each cell are bytes of one buffer, in the memory of the display or of the kernel.
pub mod Prompt
pub mod Keys
pub mod Cursor
mod Examples
use quad_os.Base.{
  ℕ, zero, suc, ◌+◌, ◌-◌, ◌*◌, ◌/◌, ◌%◌, ◌^◌, Bool, true, false, ◌&&◌, List, [], ◌∷◌, ◌==◌, ltb,
  leb, if◌then◌else◌, get_or, set, replicate, Outcome, ok, ◌>>=◌,
}

abbrev pub prompt_size : ℕ
prompt_size = 256

-- `vga_cursor` is the position that the display's cursor was last put at.
pub record Console : Type 0 where
  pub width : ℕ
  pub height : ℕ
  pub buffer : List ℕ
  pub cursor_x : ℕ
  pub cursor_y : ℕ
  pub clear_color : ℕ
  pub prompt_pos : ℕ
  pub prompt_buffer : List ℕ
  pub vga_cursor : ℕ
  pub needs_redraw : Bool

abbrev pub backspace : ℕ
backspace = 8

abbrev pub line_feed : ℕ
line_feed = 10

abbrev pub u16_mod : ℕ
u16_mod = 2 ^ 16

-- `cursor_x + cursor_y * width`
abbrev pub cursor_cell : Console → ℕ
cursor_cell k = k.cursor_x + k.cursor_y * k.width

-- Two bytes of the cell `from` to the cell `to`
unfoldable pub copy_cell : ℕ → ℕ → List ℕ → List ℕ
copy_cell from to buffer =
    let copied = set buffer (to * 2) (get_or buffer (from * 2) 0) in
    set copied (to * 2 + 1) (get_or copied (from * 2 + 1) 0)

-- The inner loop of `vga_scroll_up`, in the row `y`, with `left` columns left from the column `x` on
unfoldable pub copy_row : ℕ → ℕ → ℕ → ℕ → List ℕ → List ℕ
copy_row width y zero x buffer = buffer
copy_row width y (suc left) x buffer =
    copy_row width y left (x + 1) (copy_cell (x + (y + 1) * width) (x + y * width) buffer)

-- The outer loop, with `left` rows left from the row `y` on
unfoldable pub copy_rows : ℕ → ℕ → ℕ → List ℕ → List ℕ
copy_rows width zero y buffer = buffer
copy_rows width (suc left) y buffer = copy_rows width left (y + 1) (copy_row width y width 0 buffer)

-- The loop that clears the last line, from the cell `cell` on
unfoldable pub clear_cells : ℕ → ℕ → ℕ → List ℕ → List ℕ
clear_cells color zero cell buffer = buffer
clear_cells color (suc left) cell buffer =
    clear_cells color left (cell + 1) (set (set buffer (cell * 2) 0) (cell * 2 + 1) color)

unfoldable pub vga_scroll_up : Console → Console
vga_scroll_up k =
    let moved = copy_rows k.width (k.height - 1) 0 k.buffer in
    record k {
      cursor_y = (k.cursor_y + u16_mod - 1) % u16_mod;
      buffer = clear_cells k.clear_color k.width ((k.height - 1) * k.width) moved;
    }

unfoldable pub vga_newline : Console → Console
vga_newline k =
    let y = (k.cursor_y + 1) % u16_mod in
    let k' = record k { cursor_x = 0; cursor_y = y } in
    if leb k.height y then vga_scroll_up k' else k'

unfoldable pub vga_write_char : ℕ → Console → Console
vga_write_char c k =
    let back = record k { cursor_x = (k.cursor_x + u16_mod - 1) % u16_mod } in
    let erased = record back { buffer = set k.buffer (cursor_cell back * 2) 32 } in
    let x = (k.cursor_x + 1) % u16_mod in
    let written = record k { buffer = set k.buffer (cursor_cell k * 2) c; cursor_x = x } in
    if c == line_feed
    then vga_newline k
    else if c == backspace
    then erased
    else if x == k.width
    then vga_newline written
    else written

unfoldable pub update_cursor_pos : Console → Console
update_cursor_pos k = record k { vga_cursor = (k.cursor_y * k.width + k.cursor_x) % u16_mod }

-- The characters of a string, up to its byte 0
unfoldable pub write_string : List ℕ → Console → Console
write_string [] k = k
write_string (c ∷ cs) k =
    let written = write_string cs (vga_write_char c k) in if c == 0 then k else written

unfoldable pub console_print : List ℕ → Console → Console
console_print str k = update_cursor_pos (write_string str k)

-- "> "
abbrev pub prompt_text : List ℕ
prompt_text = 62 ∷ 32 ∷ []

unfoldable pub console_set_prompt_enabled : Bool → Console → Console
console_set_prompt_enabled enabled k = if enabled then console_print prompt_text k else k

unfoldable pub clear_prompt : Console → Console
clear_prompt k = record k { prompt_pos = 0; prompt_buffer = replicate prompt_size 0 }

-- Each cell blank: the byte 0, then the colour
unfoldable pub vga_clear : Console → Console
vga_clear k = record k { buffer = clear_cells k.clear_color (k.width * k.height) 0 k.buffer }

unfoldable pub init_console : Bool → List ℕ → Console → Console
init_console graphics_enabled memory k = update_cursor_pos (
    vga_clear (
      clear_prompt (record k {
        width = 80;
        height = if graphics_enabled then 50 else 25;
        cursor_x = 0;
        cursor_y = 0;
        buffer = memory;
        clear_color = 0xa;
      })))

-- `shell_execute` of kernel/shell.c, which may print.
module _ (graphics_enabled : Bool) (shell_execute : List ℕ → Console → Outcome Console) where
  -- What follows the edit of the prompt.
  unfoldable pub echo_key : ℕ → Console → Outcome Console
  echo_key c k = do
    let written = vga_write_char c k
    let enter = do
      k' ← shell_execute written.prompt_buffer written
      ok (console_print prompt_text (clear_prompt k'))
    done ← if c == line_feed then enter else ok written
    let shown = update_cursor_pos done
    ok (if graphics_enabled then record shown { needs_redraw = true } else shown)

  unfoldable pub console_key_typed : ℕ → Console → Outcome Console
  console_key_typed c k =
      let erased = record k {
        prompt_buffer = set k.prompt_buffer k.prompt_pos 0;
        prompt_pos = k.prompt_pos - 1;
      } in
      let typed = record k {
        prompt_buffer = set k.prompt_buffer k.prompt_pos c;
        prompt_pos = k.prompt_pos + 1;
      } in
      let back = echo_key c erased in
      let on = echo_key c typed in
      if c == backspace
      then (if k.prompt_pos == 0 then ok k else back)
      else if k.prompt_pos == prompt_size - 1
      then ok k
      else on
