-- ===== src/Interrupts/Examples.antt =====
-- kernel/interrupts.c on two sections, one inside the other.
use quad_os.Base.{true, false, [], ◌∷◌, List, refl, Returns, arith}
use quad_os.Interrupts.{Cli}
use quad_os.Interrupts.Nesting.{
  Call, push, pop, run, Balanced, done, section, Restored, run-Restored,
}

abbrev outside : Cli
outside = record { interrupts_enabled = true; cli_level = 0; cli_init_state = false }

abbrev nested : List Call
nested = push ∷ (push ∷ (pop ∷ (pop ∷ [])))

nested-Balanced : Balanced 2 nested
nested-Balanced = section (push ∷ (pop ∷ [])) [] (section [] [] done done) done

run-Restored_example : Returns (run nested outside) (Restored outside)
run-Restored_example =
    run-Restored 2 nested outside nested-Balanced (record { off = λ h. absurd (h refl) })
      (omega arith)
