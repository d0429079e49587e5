-- ===== src/Interrupts/Nesting.antt =====
-- kernel/interrupts.c: nested critical sections restore the interrupt flag.
use quad_os.Base.{
  ℕ, suc, ◌+◌, ◌^◌, ◌<◌, ◌≡◌, ◌≢◌, refl, sym, ◌∙◌, true, false, List, [], ◌∷◌, ◌++◌, ◌==◌, Outcome,
  ok, panic, spins, ◌>>=◌, Returns, Returns-bind, Returns-map, kernel_assert, arith, ltb, ◌&&◌,
  if◌then◌else◌,
}
use quad_os.Interrupts.{Cli, push_cli, pop_cli}

pub data Call : Type 0 where
  push : Call
  pop : Call

unfoldable pub run : List Call → Cli → Outcome Cli
run [] c = ok c
run (push ∷ calls) c = run calls (push_cli c)
run (pop ∷ calls) c = pop_cli c >>= run calls

-- Sequences of calls in which each `push_cli` has its `pop_cli`, nested at most `depth` deep.
pub data Balanced : ℕ → List Call → Type 0 where
  done : {depth : ℕ} → Balanced depth []
  section :
      {depth : ℕ}
      → (xs ys : List Call) → Balanced depth xs
      → Balanced (suc depth) ys
      → Balanced (suc depth) (push ∷ (xs ++ (pop ∷ ys)))

-- Inside a critical section interrupts are off.
pub record IsCli (c : Cli) : Type 0 where
  pub off : c.cli_level ≢ 0 → c.interrupts_enabled ≡ false

-- The state is what it was, but for the saved flag, which has no meaning outside of a section.
pub record Restored (c c' : Cli) : Type 0 where
  pub enabled : c'.interrupts_enabled ≡ c.interrupts_enabled
  pub level : c'.cli_level ≡ c.cli_level
  pub saved : c.cli_level ≢ 0 → c'.cli_init_state ≡ c.cli_init_state

run-after :
    (xs ys : List Call) (m : Outcome Cli)
    → ((d : Cli) → run (xs ++ ys) d ≡ (run xs d >>= run ys))
    → (m >>= run (xs ++ ys)) ≡ ((m >>= run xs) >>= run ys)
run-after xs ys (ok d) h = h d
run-after xs ys panic h = refl
run-after xs ys spins h = refl

run-append : (xs ys : List Call) (c : Cli) → run (xs ++ ys) c ≡ (run xs c >>= run ys)
unfolding run
run-append [] ys c = refl
run-append (push ∷ xs) ys c = run-append xs ys (push_cli c)
run-append (pop ∷ xs) ys c = run-after xs ys (pop_cli c) (run-append xs ys)

push-IsCli : (c : Cli) → IsCli (push_cli c)
unfolding push_cli
push-IsCli c = record { off = λ h. refl }

level-push :
    (c : Cli) (depth : ℕ)
    → c.cli_level + suc depth < 2 ^ 31
    → (push_cli c).cli_level + depth < 2 ^ 31
unfolding push_cli
level-push c depth h = omega arith

-- The `pop_cli` that closes a section, after what was inside it.
pub pop-closes :
    (c c' : Cli)
    → IsCli c
    → c.cli_level + 1 < 2 ^ 31
    → Restored (push_cli c) c'
    → Returns (pop_cli c') (Restored c)
unfolding push_cli pop_cli kernel_assert
pop-closes c c' v small r =
    let in_section : (ltb 0 c'.cli_level && ltb c'.cli_level (2 ^ 31)) ≡ true =
      ground (arith, r.level) in
    let saved : c'.cli_init_state
        ≡ (if c.cli_level == 0 then c.interrupts_enabled else c.cli_init_state) =
      r.saved (λ e. omega (arith, e)) in
    rw (r.enabled, in_section, Returns)
      (record {
        enabled = ground (arith, saved, v.off, r.level);
        level = omega (arith, r.level);
        saved = λ h. ground (arith, saved);
      })

Restored-IsCli : (c c' : Cli) → IsCli c → Restored c c' → IsCli c'
Restored-IsCli c c' v r = record { off = λ h. r.enabled ∙ v.off (λ e. h (r.level ∙ e)) }

Restored-Restored : (c c' c'' : Cli) → Restored c c' → Restored c' c'' → Restored c c''
Restored-Restored c c' c'' r s = record {
  enabled = s.enabled ∙ r.enabled;
  level = s.level ∙ r.level;
  saved = λ h. s.saved (λ e. h (sym r.level ∙ e)) ∙ r.saved h;
}

-- Any balanced sequence of `push_cli` and `pop_cli`, begun in a state where sections have interrupts
-- off and not nested so deep that the level overflows, returns, and restores the interrupt flag and
-- the level.
pub run-Restored :
    (depth : ℕ) (calls : List Call) (c : Cli)
    → Balanced depth calls
    → IsCli c
    → c.cli_level + depth < 2 ^ 31
    → Returns (run calls c) (Restored c)
unfolding run
run-Restored depth _ c done v small = record { enabled = refl; level = refl; saved = λ h. refl }
run-Restored (suc depth) _ c (section xs ys inner rest) v small =
    rw (run-append xs (pop ∷ ys) (push_cli c), Returns)
      (Returns-bind (run xs (push_cli c)) _ _ _
        (run-Restored depth xs (push_cli c) inner (push-IsCli c) (level-push c depth small))
        (λ c' r. Returns-bind (pop_cli c') _ _ _ (pop-closes c c' v (omega arith) r) (λ d s.
          Returns-map (run ys d) _ _
            (run-Restored (suc depth) ys d rest (Restored-IsCli c d v s) (omega (arith, s.level)))
            (λ e t. Restored-Restored c d e s t))))

-- Within an open critical section, after any balanced sequence of further calls not nested so deep
-- that the level overflows, interrupts are off.
pub run_inside :
    (depth : ℕ) (calls : List Call) (c : Cli)
    → Balanced depth calls
    → c.cli_level + suc depth < 2 ^ 31
    → Returns (run (push ∷ calls) c) (λ c'. c'.interrupts_enabled ≡ false)
unfolding run push_cli
run_inside depth calls c balanced small =
    Returns-map (run calls (push_cli c)) _ _
      (run-Restored depth calls (push_cli c) balanced (push-IsCli c) (omega arith))
      (λ c' r. r.enabled)
