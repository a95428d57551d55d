-- ===== src/Semaphore/Passes.antt =====
-- What a pass of `semaphore_take` does to the semaphore (src/semaphore.rs).
use int_os.Base.{
  inl, inr, ◌⊎◌, ltb, Option, Bool-cases, Option-cases, ℕ, ◌+◌, ◌≡◌, refl, arith, List, ◌∷◌, ◌==◌,
}
use int_os.OpLog.{TaskId}
use int_os.Semaphore.{try_take}
use int_os.Messages.{wakeup_time}
use int_os.Semaphore.Blocking.{
  Shared, Pass, takes, fails, sleeps, panicked, wait_to_take, take_pass,
}

-- The holders behind a pass of the task `t`.
abbrev pub hold : Pass → TaskId → List TaskId → List TaskId
hold takes t hs = t ∷ hs
hold fails t hs = hs
hold (sleeps w) t hs = hs
hold panicked t hs = hs

-- A pass takes a unit, or finds none.
abbrev pub Passed : Shared → Pass → Shared → Type 0
Passed c p c' =
    (c'.sem.size ≡ c.sem.size)
    × (c'.woken ≡ c.woken)
    × (((p ≡ takes) × (c'.sem.count + 1 ≡ c.sem.count) × (c'.wait_list ≡ c.wait_list))
        ⊎ (((t : TaskId) (hs : List TaskId) → hold p t hs ≡ hs)
            × (c'.sem.count ≡ 0)
            × (c.sem.count ≡ 0)))

wait_to_take-Passed :
    (priority : TaskId → ℕ) (t wait_ticks : ℕ) (set_time : Option ℕ) (now : ℕ) (c : Shared)
    → c.sem.count ≡ 0
    → let r = wait_to_take priority t wait_ticks set_time now c in Passed c r.0 r.1
unfolding wait_to_take
wait_to_take-Passed priority t wait_ticks set_time now c empty =
    elim (Bool-cases (wait_ticks == 0)) [
      | inl over ↦ rw over (refl, refl, inr ((λ u hs. refl), empty, empty))
      | inr left ↦ rw left (elim (Option-cases (wakeup_time set_time wait_ticks now)) [
        | inl late ↦ rw late (refl, refl, inr ((λ u hs. refl), empty, empty))
        | inr (w, at) ↦ rw at (refl, refl, inr ((λ u hs. refl), empty, empty))
      ])
    ]

pub take_pass-Passed :
    (priority : TaskId → ℕ) (t wait_ticks : ℕ) (set_time : Option ℕ) (now : ℕ) (c : Shared)
    → let r = take_pass priority t wait_ticks set_time now c in Passed c r.0 r.1
unfolding take_pass try_take
take_pass-Passed priority t wait_ticks set_time now c = elim (Bool-cases (ltb 0 c.sem.count)) [
  | inl free ↦ rw (free, take_pass) (refl, refl, inl (refl, ground (arith, free), refl))
  | inr held ↦
      rw (held, take_pass)
        (wait_to_take-Passed priority t wait_ticks set_time now c (ground (arith, held)))
]
