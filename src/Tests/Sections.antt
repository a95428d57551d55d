-- ===== src/Tests/Sections.antt =====
-- A critical section with another one in it (src/critical.rs).
use int_os.Base.{◌≡◌, refl, true, false, [], ◌∷◌}
use int_os.Critical.{
  Cpu, with_no_interrupt, disable_interrupt, enable_interrupt, inc, dec, is_in_critical,
}
use int_os.Critical.Nested.{Code, step, seq, critical, run, AllOff, with_no_interrupt-nested}

abbrev outside : Cpu
outside = record { interrupts = true; cnt = 0 }

abbrev nested : Code
nested = seq step (seq (critical (seq step step)) step)

steps : run (seq nested (critical nested)) outside ≡ (
  (true, false)
      ∷ (false, true)
      ∷ (false, true)
      ∷ (true, false)
      ∷ (false, true)
      ∷ (false, true)
      ∷ (false, true)
      ∷ (false, true)
      ∷ [],
  outside,
)
unfolding with_no_interrupt disable_interrupt enable_interrupt inc dec is_in_critical
steps = refl

with_no_interrupt-nested_example :
    AllOff (with_no_interrupt (run nested) outside).0
    × ((with_no_interrupt (run nested) outside).1 ≡ record { interrupts = true; cnt = 0 })
with_no_interrupt-nested_example = with_no_interrupt-nested nested outside refl
