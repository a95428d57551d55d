-- ===== src/Schedule/Order.antt =====
-- The order of the delay list (src/task.rs).
use int_os.Base.{
  ℕ, ◌≤◌, ◌<◌, ◌≡◌, refl, ap, inl, inr, arith, true, List, [], ◌∷◌, ltb, if◌then◌else◌, Bool-cases,
  ◌==◌,
}
use int_os.OpLog.{TaskId}
use int_os.Schedule.{Delayed, insert_delayed, first_wakeup}

-- The wakeup times ascend, from the first number on.
abbrev pub From : ℕ → List Delayed → Type 0
From w [] = Unit {0}
From w (d ∷ ds) = (w ≤ d.wakeup_time) × From d.wakeup_time ds

-- The tasks that are due at a time, and the others.
abbrev pub due : ℕ → List Delayed → List Delayed
due now [] = []
due now (d ∷ ds) = let rest = due now ds in if ltb now d.wakeup_time then rest else d ∷ rest

abbrev pub later : ℕ → List Delayed → List Delayed
later now [] = []
later now (d ∷ ds) = let rest = later now ds in if ltb now d.wakeup_time then d ∷ rest else rest

-- The tasks of a priority.
abbrev pub with_priority : (TaskId → ℕ) → ℕ → List Delayed → List TaskId
with_priority prio p [] = []
with_priority prio p (d ∷ ds) =
    let rest = with_priority prio p ds in if p == prio d.task then d.task ∷ rest else rest

pub From-insert_delayed :
    (v w : ℕ) (d : Delayed) (ds : List Delayed)
    → From w ds
    → v ≤ w
    → v ≤ d.wakeup_time
    → From v (insert_delayed d ds)
unfolding insert_delayed
From-insert_delayed v w d [] f h k = (k, tt)
From-insert_delayed v w d (e ∷ es) f h k = elim (Bool-cases (ltb e.wakeup_time d.wakeup_time)) [
  | inl before ↦ rw before (
    omega (arith, f.0, h),
    From-insert_delayed e.wakeup_time e.wakeup_time d es f.1 (omega arith) (ground (arith, before)),
  )
  | inr behind ↦ rw behind (k, (ground (arith, behind), f.1))
]

pub From-later : (w now : ℕ) (ds : List Delayed) → From w ds → From w (later now ds)
From-later w now [] f = tt
From-later w now (d ∷ ds) f = elim (Bool-cases (ltb now d.wakeup_time)) [
  | inl left ↦ rw left (f.0, From-later d.wakeup_time now ds f.1)
  | inr over ↦
      rw over (From-lower w d.wakeup_time (later now ds) f.0 (From-later d.wakeup_time now ds f.1))
]
  where
    From-lower : (v w : ℕ) (ds : List Delayed) → v ≤ w → From w ds → From v ds
    From-lower v w [] h f = tt
    From-lower v w (d ∷ ds) h f = (omega (arith, h, f.0), f.1)

pub From-first_wakeup : (w : ℕ) (ds : List Delayed) → From w ds → From (first_wakeup ds) ds
unfolding first_wakeup
From-first_wakeup w [] f = tt
From-first_wakeup w (d ∷ ds) f = (omega arith, f.1)

-- None is due before the first wakeup time.
pub later_all :
    (w now : ℕ) (ds : List Delayed) → From w ds → now < w → (later now ds ≡ ds) × (due now ds ≡ [])
later_all w now [] f h = (refl, refl)
later_all w now (d ∷ ds) f h =
    let rest = later_all d.wakeup_time now ds f.1 (omega (arith, f.0, h)) in
    let left : ltb now d.wakeup_time ≡ true = ground (arith, f.0, h) in
    rw left (ap (λ l. d ∷ l) rest.0, rest.1)
