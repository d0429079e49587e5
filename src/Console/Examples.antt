-- ===== src/Console/Examples.antt =====
-- kernel/console.c: a small screen, and a shell that prints nothing.
use quad_os.Base.{
  ℕ, ◌-◌, ◌<◌, ◌≢◌, ◌⊎◌, ◌↔◌, refl, true, false, List, [], replicate, get_or-replicate,
  length-replicate, Outcome, ok, Delivers, arith,
}
use quad_os.Console.{Console, backspace, prompt_size, vga_write_char, console_key_typed}
use quad_os.Console.Prompt.{ShowsText}
use quad_os.Console.Keys.{edited, console_key_typed-Shows}
use quad_os.Console.Cursor.{OnScreen, vga_write_char-OnScreen_iff}

abbrev screen : Console
screen = record {
  width = 3;
  height = 2;
  buffer = replicate 12 0;
  cursor_x = 2;
  cursor_y = 1;
  clear_color = 10;
  prompt_pos = 0;
  prompt_buffer = replicate prompt_size 0;
  vga_cursor = 0;
  needs_redraw = false;
}

screen-Shows : ShowsText [] screen
screen-Shows = record {
  size = length-replicate prompt_size 0;
  position = refl;
  room = omega arith;
  bytes = λ i h. absurd (omega arith);
  zeros = λ i h. get_or-replicate prompt_size i 0;
  ended = get_or-replicate prompt_size (prompt_size - 1) 0;
}

abbrev silent : List ℕ → Console → Outcome Console
silent line k = ok k

console_key_typed-Shows_example :
    Delivers ⊥ (console_key_typed true silent 97 screen) (ShowsText (edited 97 []))
console_key_typed-Shows_example =
    console_key_typed-Shows true silent ⊥ 97 [] screen screen-Shows (λ k h. tt)

screen-OnScreen : OnScreen screen
screen-OnScreen = record {
  columns = (omega arith, omega arith);
  rows = (omega arith, omega arith);
  column = omega arith;
  row = omega arith;
}

abbrev letter : ℕ
letter = 97

-- The character in the last cell scrolls the screen.
vga_write_char-OnScreen_iff_example :
    OnScreen (vga_write_char letter screen) ↔ ((letter ≢ backspace) ⊎ (0 < screen.cursor_x))
vga_write_char-OnScreen_iff_example = vga_write_char-OnScreen_iff letter screen screen-OnScreen
