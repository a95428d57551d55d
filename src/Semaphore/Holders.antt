-- ===== src/Semaphore/Holders.antt =====
-- The tasks that hold a semaphore (src/semaphore.rs).
use int_os.Base.{
  ap, ◌∙◌, inl, inr, ◌⊎◌, ◌≤◌, ltb, none, has, false, if◌then◌else◌, ◌||◌, ℕ, ◌+◌, ◌<◌, ◌≡◌, ◌≢◌,
  refl, arith, Bool, true, false, some, List, [], ◌∷◌, length, link_eq, ◌==◌, sym, ◌||◌,
}
use int_os.OpLog.{TaskId}
use int_os.Semaphore.{Semaphore, new, try_take, give, semaphore_take, taken, Wake}
use mathlib.Core.Path.{subst}
use mathlib.Core.Option.{some-injective}
use int_os.Schedule.{Delayed, remove_task}
use int_os.Messages.{still_waiting}
use int_os.Messages.Served.{length-remove_task, length-timed_out}
use int_os.Semaphore.Blocking.{Shared, Pass, take_pass, wake_taker, semaphore_give, wake_late}
use int_os.Semaphore.Passes.{hold, Passed, take_pass-Passed}

-- A task leaves the holders once.
abbrev pub leave : TaskId → List TaskId → List TaskId
leave t [] = []
leave t (x ∷ xs) = if x == t then xs else x ∷ leave t xs

abbrev pub holds : TaskId → List TaskId → Bool
holds t [] = false
holds t (x ∷ xs) = (x == t) || holds t xs

abbrev pub goes_on : TaskId → Shared → Shared
goes_on t c = record c { woken = remove_task t c.woken }

-- A semaphore and the tasks that hold it. A task that is not the one recorded as the holder calls
-- `semaphore_take`, a woken task goes on with its next pass, a task that holds the semaphore gives it,
-- and a tick comes.
pub data Step (priority : TaskId → ℕ) : Shared × List TaskId → Shared × List TaskId → Type 0 where
  calls :
      {c c' : Shared} {hs : List TaskId} {p : Pass} (t wait_ticks now : ℕ)
      → link_eq c.sem.mutex_holder (some t) ≡ false
      → take_pass priority t wait_ticks none now c ≡ (p, c')
      → Step priority (c, hs) (c', hold p t hs)
  resumes :
      {c c' : Shared} {hs : List TaskId} {p : Pass} (t wait_ticks w now : ℕ)
      → has t c.woken ≡ true
      → take_pass priority t wait_ticks (some w) now (goes_on t c) ≡ (p, c')
      → Step priority (c, hs) (c', hold p t hs)
  gives :
      {c c' : Shared} {hs : List TaskId} (t : TaskId)
      → holds t hs ≡ true
      → semaphore_give c ≡ some c'
      → Step priority (c, hs) (c', leave t hs)
  ticks : {c : Shared} {hs : List TaskId} (now : ℕ) → Step priority (c, hs) (wake_late now c, hs)

abbrev pub idle : Semaphore → Shared
idle s = record { sem = s; wait_list = []; woken = [] }

pub data Reach (priority : TaskId → ℕ) (s : Semaphore) : Shared × List TaskId → Type 0 where
  start : Reach priority s (idle s, [])
  step : {x y : Shared × List TaskId} → Reach priority s x → Step priority x y → Reach priority s y

length-leave :
    (t : TaskId) (hs : List TaskId) → holds t hs ≡ true → length (leave t hs) + 1 ≡ length hs
length-leave t [] h = ground arith
length-leave t (x ∷ xs) h = ground (arith, length-leave t xs)

-- The units that no task holds; and if a task waits, each of them has a woken task.
abbrev Balanced : ℕ → Shared × List TaskId → Type 0
Balanced n x =
    (x.0.sem.count + length x.1 ≡ n)
    × (x.0.sem.size ≡ n)
    × ((x.0.wait_list ≡ []) ⊎ (x.0.sem.count ≤ length x.0.woken))

Passed-Balanced :
    (n t : ℕ) (c : Shared) (ts hs : List TaskId) (p : Pass) (c' : Shared)
    → Balanced n (c, hs)
    → length c.woken ≤ length ts + 1
    → Passed (record c { woken = ts }) p c'
    → Balanced n (c', hold p t hs)
Passed-Balanced n t c ts hs p c' b enough (sized, kept, out) =
    let same = ap length kept in
    elim out [
      | inl (took, one, list) ↦
          subst (λ q. Balanced n (c', hold q t hs)) (sym took)
            (
              omega (arith, one, b.0),
              sized ∙ b.1,
              elim b.2 [
                | inl nobody ↦ inl (list ∙ nobody)
                | inr le ↦ inr (omega (arith, le, enough, one, same))
              ],
            )
      | inr (stay, empty, was) ↦
          subst (λ l. Balanced n (c', l)) (sym (stay t hs))
            (omega (arith, b.0, empty, was), sized ∙ b.1, inr (omega (arith, empty)))
    ]

wake_taker-Balanced :
    (n : ℕ) (s : Semaphore) (ds : List Delayed) (ts hs : List TaskId)
    → s.count + length hs ≡ n
    → s.size ≡ n
    → ((ds ≡ []) ⊎ (s.count ≤ length ts + 1))
    → Balanced n (wake_taker (record { sem = s; wait_list = ds; woken = ts }), hs)
unfolding wake_taker
wake_taker-Balanced n s [] ts hs units sized more = (units, sized, inl refl)
wake_taker-Balanced n s (d ∷ ds) ts hs units sized more = (
  units,
  sized,
  elim more [
    | inl nobody ↦ absurd (let e = ap length nobody in omega (arith, e))
    | inr le ↦ inr (omega (arith, le))
  ],
)

-- What a give does where not all units are back.
abbrev pub given : Shared → Shared
given c = wake_taker (record c { sem = record c.sem { count = c.sem.count + 1 } })

semaphore_give-given : (c : Shared) → c.sem.count < c.sem.size → semaphore_give c ≡ some (given c)
unfolding semaphore_give give
semaphore_give-given c lt =
    let some_out : (c.sem.count == c.sem.size) ≡ false = ground (arith, lt) in
    let fits : ltb c.sem.count c.sem.size ≡ true = ground (arith, lt) in
    rw (some_out, fits, semaphore_give) refl

holder-below :
    (n t : ℕ) (c : Shared) (hs : List TaskId)
    → Balanced n (c, hs)
    → holds t hs ≡ true
    → c.sem.count < c.sem.size
holder-below n t c hs b h = omega (arith, length-leave t hs h, b.0, b.1)

still_waiting-nobody : (now : ℕ) (ds : List Delayed) → ds ≡ [] → still_waiting now ds ≡ []
unfolding still_waiting
still_waiting-nobody now ds e = ap (still_waiting now) e

Step-Balanced :
    {priority : TaskId → ℕ} {x y : Shared × List TaskId} (n : ℕ)
    → Step priority x y
    → Balanced n x
    → Balanced n y
unfolding wake_late
Step-Balanced {priority} n (calls {c} {c'} {hs} {p} t wait now other e) b =
    Passed-Balanced n t c c.woken hs p c' b (omega arith)
      (subst (λ r. Passed c r.0 r.1) e (take_pass-Passed priority t wait none now c))
Step-Balanced {priority} n (resumes {c} {c'} {hs} {p} t wait w now there e) b =
    Passed-Balanced n t c (remove_task t c.woken) hs p c' b (length-remove_task t c.woken) (
      subst (λ r. Passed (goes_on t c) r.0 r.1) e
        (take_pass-Passed priority t wait (some w) now (goes_on t c)))
Step-Balanced n (gives {c} {c'} {hs} t h e) b =
    let done = semaphore_give-given c (holder-below n t c hs b h) in
    let same : given c ≡ c' = some-injective _ _ (sym done ∙ e) in
    subst (λ d. Balanced n (d, leave t hs)) same
      (wake_taker-Balanced n (record c.sem { count = c.sem.count + 1 }) c.wait_list c.woken
        (leave t hs) (omega (arith, b.0, length-leave t hs h)) b.1
        (elim b.2 [ inl nobody ↦ inl nobody | inr le ↦ inr (omega (arith, le)) ]))
Step-Balanced n (ticks {c} {hs} now) b = (
  b.0,
  b.1,
  elim b.2 [
    | inl nobody ↦ inl (still_waiting-nobody now c.wait_list nobody)
    | inr le ↦ inr (omega (arith, le, length-timed_out now c.wait_list c.woken))
  ],
)

Reach-Balanced :
    {priority : TaskId → ℕ} (n : ℕ) {x : Shared × List TaskId}
    → Reach priority (new n) x
    → Balanced n x
unfolding new
Reach-Balanced n start = (omega arith, refl, inl refl)
Reach-Balanced n (step r st) = Step-Balanced n st (Reach-Balanced n r)

-- A semaphore of `n` units, and any calls of `semaphore_take` by tasks that are not recorded as its
-- holder, passes of woken tasks, gives by tasks that hold it, and ticks: it has at all times the units
-- that no task holds, so that at most `n` tasks hold it, and a mutex at most one. When a task waits, at
-- least as many woken tasks have still to go on as there are units. A give by a holder does not fail an
-- assertion: it adds a unit, and the first waiting task, if there is one, is woken.
pub semaphore-Reach :
    (priority : TaskId → ℕ) (n : ℕ) {c : Shared} {holders : List TaskId}
    → Reach priority (new n) (c, holders)
    → (c.sem.count + length holders ≡ n)
      × ((c.wait_list ≡ []) ⊎ (c.sem.count ≤ length c.woken))
      × ((t : TaskId)
          → holds t holders ≡ true
          → semaphore_give c
            ≡ some (wake_taker (record c { sem = record c.sem { count = c.sem.count + 1 } })))
semaphore-Reach priority n {c} {holders} r =
    let b = Reach-Balanced n r in
    (b.0, b.2, λ t h. semaphore_give-given c (holder-below n t c holders b h))

-- A task that has taken a mutex and given it back is still recorded as its holder: it takes the mutex
-- again without a change to it, and any other task then takes it too, so that both hold it.
pub take-give-take_twice :
    (t u : TaskId) (now wait : ℕ) (wakes : List Wake)
    → t ≢ u
    → (s₁ s₂ s₃ : Semaphore) × (semaphore_take t wait (new 1) now wakes ≡ taken s₁)
      × (give s₁ ≡ some (true, s₂))
      × (semaphore_take t wait s₂ now wakes ≡ taken s₂)
      × (semaphore_take u wait s₂ now wakes ≡ taken s₃)
unfolding semaphore_take give new try_take
take-give-take_twice t u now wait wakes ne = (
  record { count = 0; mutex_holder = some t; is_mutex = true; size = 1 },
  record { count = 1; mutex_holder = some t; is_mutex = true; size = 1 },
  record { count = 0; mutex_holder = some u; is_mutex = true; size = 1 },
  refl,
  refl,
  ground arith,
  ground arith,
)
