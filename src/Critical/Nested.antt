-- ===== src/Critical/Nested.antt =====
-- Critical sections in critical sections (src/critical.rs).
use int_os.Base.{ℕ, ◌+◌, ◌-◌, ◌≡◌, refl, arith, Bool, true, false, List, [], ◌∷◌, ◌++◌, ltb, ◌==◌}
use int_os.Critical.{
  Cpu, with_no_interrupt, inc, dec, disable_interrupt, enable_interrupt, is_in_critical,
}

-- Code that has critical sections in it, to any depth.
pub data Code : Type 0 where
  step : Code
  seq : Code → Code → Code
  critical : Code → Code

-- A run: for each step whether interrupts are enabled there and whether it is in a critical section.
abbrev pub run : Code → Cpu → List (Bool × Bool) × Cpu
run step c = ((c.interrupts, is_in_critical c) ∷ [], c)
run (seq p q) c =
    let first = run p c in let second = run q first.1 in (first.0 ++ second.0, second.1)
run (critical p) c = with_no_interrupt (run p) c

abbrev pub AllOff : List (Bool × Bool) → Type 0
AllOff [] = Unit
AllOff (o ∷ os) = (o ≡ (false, true)) × AllOff os

AllOff-append : (os ps : List (Bool × Bool)) → AllOff os → AllOff ps → AllOff (os ++ ps)
AllOff-append [] ps h k = k
AllOff-append (o ∷ os) ps h k = (h.0, AllOff-append os ps h.1 k)

-- In a section the code runs with interrupts off, and leaves the state as it was.
run-inside :
    (p : Code) (n : ℕ)
    → AllOff (run p (record { interrupts = false; cnt = n + 1 })).0
      × ((run p (record { interrupts = false; cnt = n + 1 })).1
          ≡ record { interrupts = false; cnt = n + 1 })
unfolding with_no_interrupt inc dec disable_interrupt enable_interrupt is_in_critical
run-inside step n = let inside : ltb 0 (n + 1) ≡ true = ground arith in ((rw inside refl, tt), refl)
run-inside (seq p q) n =
    let a = run-inside p n in
    let b = run-inside q n in
    rw a.1 (AllOff-append (run p (record { interrupts = false; cnt = n + 1 })).0 _ a.0 b.0, b.1)
run-inside (critical p) n =
    let a = run-inside p (n + 1) in
    let back : n + 1 + 1 - 1 ≡ n + 1 = omega arith in
    let more : (n + 1 == 0) ≡ false = ground arith in (a.0, rw (a.1, back, more) refl)

-- All the code of a critical section that is entered outside of any, the sections nested in it
-- included, runs with interrupts off, and in a critical section. Behind it interrupts are enabled
-- and the nesting level is 0.
pub with_no_interrupt-nested :
    (p : Code) (c : Cpu)
    → c.cnt ≡ 0
    → AllOff (with_no_interrupt (run p) c).0
      × ((with_no_interrupt (run p) c).1 ≡ record { interrupts = true; cnt = 0 })
unfolding with_no_interrupt inc dec disable_interrupt enable_interrupt
with_no_interrupt-nested p c out = let a = run-inside p 0 in rw out (a.0, rw a.1 refl)
