-- ===== src/Critical.antt =====
-- The critical sections, src/critical.rs. The nesting level does not reach 2^32.
pub mod Nested
use int_os.Base.{ℕ, ◌+◌, ◌-◌, Bool, true, false, List, [], ◌∷◌, ◌++◌, ltb, ◌==◌, if◌then◌else◌}

-- Whether interrupts are enabled, and `NESTING_CNT`.
pub record Cpu : Type 0 where
  pub interrupts : Bool
  pub cnt : ℕ

unfoldable pub disable_interrupt : Cpu → Cpu
disable_interrupt c = record c { interrupts = false }

unfoldable pub enable_interrupt : Cpu → Cpu
enable_interrupt c = record c { interrupts = true }

unfoldable pub inc : Cpu → Cpu
inc c = record c { cnt = c.cnt + 1 }

unfoldable pub dec : Cpu → Cpu
dec c = record c { cnt = c.cnt - 1 }

unfoldable pub with_no_interrupt : {A : Type 0} → (Cpu → A × Cpu) → Cpu → A × Cpu
unfolding disable_interrupt enable_interrupt inc dec
with_no_interrupt f c =
    let v = f (inc (disable_interrupt c)) in
    let left = dec v.1 in (v.0, if left.cnt == 0 then enable_interrupt left else left)

unfoldable pub is_in_critical : Cpu → Bool
is_in_critical c = ltb 0 c.cnt

unfoldable pub exit_all_critical : Cpu → Cpu
exit_all_critical c = record c { cnt = 0 }
