-- ===== src/Timers/Expiry.antt =====
-- Timers that have expired are called once each (src/time.rs, `process_expired_timer`).
use mathlib.Core.Path.{subst}
use int_os.Base.{
  if_yes, if_no, ==→eq, fun_ext, ℕ, zero, suc, ◌≡◌, refl, sym, ap, ◌∙◌, inl, inr, arith, true,
  false, Option, none, some, List, [], ◌∷◌, map, length, leb, ◌==◌, has, if◌then◌else◌, Bool-cases,
  List-cases,
}
use int_os.Schedule.Round.{AllDistinct}
use int_os.Timers.{TimerId, Timer, TimeManager, Outcome, call, expiry_of, process_expired_timer}
use int_os.Timers.Order.{Ascends, expired, expired-none, has-expired}
use int_os.Timers.Active.{IsActiveList}
use int_os.Timers.Called.{fired, Periodic, Step, expire-Step}

-- A number of expiries, and what they call.
abbrev pub expiries : ℕ → ℕ → TimeManager → Option (List Outcome × TimeManager)
expiries zero now s = some ([], s)
expiries (suc k) now s = elim (process_expired_timer now now s) [
  | none ↦ none
  | some (o, s') ↦ elim (expiries k now s') [ none ↦ none | some (os, end) ↦ some (o ∷ os, end) ]
]

-- The first of the timers that have expired is the first of the list.
expired-front :
    (now t : ℕ) (ds : List TimerId) (s : TimeManager)
    → IsActiveList s
    → expired (expiry_of s) now s.active_timer_list ≡ t ∷ ds
    → (r : List TimerId) × (s.active_timer_list ≡ t ∷ r)
      × (leb (expiry_of s t) now ≡ true)
      × (expired (expiry_of s) now r ≡ ds)
expired-front now t ds s h e = elim (List-cases s.active_timer_list) [
  | inl empty ↦
      let none_there : [] ≡ t ∷ ds = sym (ap (expired (expiry_of s) now) empty) ∙ e in
      absurd (ground (arith, none_there))
  | inr (u, r, front) ↦
      let order = subst (Ascends (expiry_of s) 0) front h.0 in
      let here = sym (ap (expired (expiry_of s) now) front) ∙ e in
      elim (Bool-cases (leb (expiry_of s u) now)) [
        | inl due ↦
            let same : u ∷ expired (expiry_of s) now r ≡ t ∷ ds = sym (if_yes _ due) ∙ here in
            let head : u ≡ t = ap (λ l. elim l [ [] ↦ u | x ∷ xs ↦ x ]) same in
            (
              r,
              front ∙ ap (λ x. x ∷ r) head,
              sym (ap (λ x. leb (expiry_of s x) now) head) ∙ due,
              ap (λ l. elim l [ [] ↦ [] | x ∷ xs ↦ xs ]) same,
            )
        | inr left ↦
            let later =
              expired-none (expiry_of s) (expiry_of s u) now r order.1 (ground (arith, left)) in
            let none_there : [] ≡ t ∷ ds = sym later ∙ sym (if_no _ left) ∙ here in
            absurd (ground (arith, none_there))
      ]
]

-- An expiry changes neither the callback nor the period of a timer.
fired-call : (now : ℕ) (t : Timer) → call (fired now t) ≡ call t
unfolding call
fired-call now t = elim (Bool-cases t.auto_reload) [
  | inl again ↦ ap call (if_yes _ again)
  | inr once ↦ ap call (if_no _ once)
]

fired-period : (now : ℕ) (t : Timer) → (fired now t).period_ticks ≡ t.period_ticks
fired-period now t = elim (Bool-cases t.auto_reload) [
  | inl again ↦ ap {A = Timer} (λ x. x.period_ticks) (if_yes _ again)
  | inr once ↦ ap {A = Timer} (λ x. x.period_ticks) (if_no _ once)
]

-- What does not change at any expiry stays at one of them.
Step-keeps :
    {A : Type 0} (g : Timer → A) (now t u : ℕ) (r : List TimerId) (s s' : TimeManager)
    → ((x : Timer) → g (fired now x) ≡ g x)
    → Step now t r s s'
    → g (s'.timers u) ≡ g (s.timers u)
Step-keeps g now t u r s s' stays step = ap g (step.1 u) ∙ elim (Bool-cases (u == t)) [
  | inl same ↦
      ap g (if_yes _ same) ∙ stays (s.timers t) ∙ ap (λ x. g (s.timers x)) (sym (==→eq u t same))
  | inr other ↦ ap g (if_no _ other)
]

Step-Periodic :
    (now t : ℕ) (r : List TimerId) (s s' : TimeManager)
    → s.active_timer_list ≡ t ∷ r
    → Step now t r s s'
    → Periodic now s
    → Periodic now s'
Step-Periodic now t r s s' front step periodic u there =
    let p = periodic u (ap (has u) front ∙ step.3 u there) in
    let same = Step-keeps (λ x. x.period_ticks) now t u r s s' (fired-period now) step in
    (omega (arith, p.0, same), omega (arith, p.1, same))

-- The state after the expiries of the timers `ds`.
abbrev Called : ℕ → List TimerId → TimeManager → Type 0
Called now ds s =
    (s' : TimeManager) × (expiries (length ds) now s ≡ some (map (λ t. call (s.timers t)) ds, s'))
    × (expired (expiry_of s') now s'.active_timer_list ≡ [])
    × ((u : ℕ) → s'.timers u ≡ (if has u ds then fired now (s.timers u) else s.timers u))

expiries-Called :
    (now : ℕ) (ds : List TimerId) (s : TimeManager)
    → IsActiveList s
    → Periodic now s
    → expired (expiry_of s) now s.active_timer_list ≡ ds
    → Called now ds s
expiries-Called now [] s h periodic e = (s, refl, e, λ u. refl)
expiries-Called now (t ∷ ds) s h periodic e =
    let f = expired-front now t ds s h e in
    let r = f.0 in
    let front = f.1 in
    let one = expire-Step now t r s h periodic front f.2 in
    let s₁ = one.0 in
    let step = one.2 in
    let ih =
      expiries-Called now ds s₁ step.0 (Step-Periodic now t r s s₁ front step periodic)
        (step.2 ∙ f.3) in
    let same_calls : ◌≡◌ {A = TimerId → Outcome} (λ u. call (s₁.timers u))
        (λ u. call (s.timers u)) =
      fun_ext λ u. Step-keeps call now t u r s s₁ (fired-call now) step in
    let apart : has t ds ≡ false =
      ap (has t) (sym f.3) ∙ has-expired (expiry_of s) now t r (subst AllDistinct front h.1).0 in
    (
      ih.0,
      rw (expiries, one.1, ih.1) (ap (λ g. some (call (s.timers t) ∷ map g ds, ih.0)) same_calls),
      ih.2,
      λ u. ih.3 u ∙ elim (Bool-cases (u == t)) [
        | inl same ↦
            let t_is = ==→eq u t same in
            let here : has u (t ∷ ds) ≡ true = ground (arith, same) in
            if_no _ (ap (λ x. has x ds) t_is ∙ apart)
            ∙ step.1 u
            ∙ if_yes _ same
            ∙ ap (λ x. fired now (s.timers x)) (sym t_is)
            ∙ sym (if_yes _ here)
        | inr other ↦
            let here : has u ds ≡ has u (t ∷ ds) = ground (arith, other) in
            ap (λ x. if has u ds then fired now x else x) (step.1 u ∙ if_no _ other)
            ∙ ap (λ b. if b then fired now (s.timers u) else s.timers u) here
      ],
    )

-- The daemon, in a state of its list, while the clock shows `now`, all active timers having periods above
-- 0 for which the next expiry does not overflow: as many calls of `process_expired_timer` as timers have
-- expired all succeed, and call each of these timers once, in the order of the list. Behind them none
-- has expired: those that reload expire a period after `now`, the other ones of them are not active, and
-- all other timers are as they were.
pub expiries-called_once :
    (now : ℕ) (s : TimeManager)
    → IsActiveList s
    → Periodic now s
    → let due = expired (expiry_of s) now s.active_timer_list in
      (s' : TimeManager) × (expiries (length due) now s
        ≡ some (map (λ t. call (s.timers t)) due, s'))
      × (expired (expiry_of s') now s'.active_timer_list ≡ [])
      × ((u : ℕ) → s'.timers u ≡ (if has u due then fired now (s.timers u) else s.timers u))
expiries-called_once now s h periodic =
    expiries-Called now (expired (expiry_of s) now s.active_timer_list) s h periodic refl
