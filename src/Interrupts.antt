-- ===== src/Interrupts.antt =====
-- kernel/interrupts.c: critical sections, which `push_cli` opens and `pop_cli` closes.
pub mod Nesting
mod Examples
use quad_os.Base.{
  ℕ, ◌+◌, ◌^◌, Bool, true, false, not, ◌&&◌, ◌==◌, ltb, if◌then◌else◌, add32, sub32, Outcome, ok,
  ◌>>=◌, ◌>>◌, kernel_assert,
}

-- The flag IF of the processor (`eflags & FL_IF`), and the file's static variables. `cli_level` is
-- the bit pattern of an `int32_t`.
pub record Cli : Type 0 where
  pub interrupts_enabled : Bool
  pub cli_level : ℕ
  pub cli_init_state : Bool

unfoldable pub are_interrupts_enabled : Cli → Bool
are_interrupts_enabled c = c.interrupts_enabled

unfoldable pub push_cli : Cli → Cli
push_cli c = record {
  interrupts_enabled = false;
  cli_level = add32 c.cli_level 1;
  cli_init_state = if c.cli_level == 0 then c.interrupts_enabled else c.cli_init_state;
}

unfoldable pub pop_cli : Cli → Outcome Cli
unfolding kernel_assert
pop_cli c = do
  kernel_assert (not c.interrupts_enabled)
  kernel_assert (ltb 0 c.cli_level && ltb c.cli_level (2 ^ 31))
  let level = sub32 c.cli_level 1
  ok (record {
    interrupts_enabled = if level == 0 && c.cli_init_state then true else c.interrupts_enabled;
    cli_level = level;
    cli_init_state = c.cli_init_state;
  })
