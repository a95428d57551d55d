-- ===== src/Timers/Order.antt =====
-- The order of the active list of timers (src/time.rs).
use int_os.Base.{
  ==→eq, ℕ, ◌≤◌, ◌<◌, ◌≡◌, refl, ap, ◌∙◌, inl, inr, arith, false, not, ◌&&◌, ◌||◌, List, [], ◌∷◌,
  ltb, leb, ◌==◌, has, if◌then◌else◌, Bool-cases,
}
use int_os.Schedule.{remove_task}
use int_os.Schedule.Round.{AllDistinct}
use int_os.Timers.{TimerId, insert_timer}

-- The expiry times ascend, from the first number on.
abbrev pub Ascends : (TimerId → ℕ) → ℕ → List TimerId → Type 0
Ascends f w [] = Unit {0}
Ascends f w (t ∷ ts) = (w ≤ f t) × Ascends f (f t) ts

Ascends-lower :
    (f : TimerId → ℕ) (v w : ℕ) (ts : List TimerId) → v ≤ w → Ascends f w ts → Ascends f v ts
Ascends-lower f v w [] h a = tt
Ascends-lower f v w (t ∷ ts) h a = (omega (arith, h, a.0), a.1)

pub Ascends-insert_timer :
    (f : TimerId → ℕ) (w t : ℕ) (ts : List TimerId)
    → Ascends f w ts
    → w ≤ f t
    → Ascends f w (insert_timer f t ts)
unfolding insert_timer
Ascends-insert_timer f w t [] a h = (h, tt)
Ascends-insert_timer f w t (u ∷ us) a h = elim (Bool-cases (ltb (f u) (f t))) [
  | inl before ↦ rw before (a.0, Ascends-insert_timer f (f u) t us a.1 (ground (arith, before)))
  | inr behind ↦ rw behind (h, (ground (arith, behind), a.1))
]

pub Ascends-remove_task :
    (f : TimerId → ℕ) (w t : ℕ) (ts : List TimerId)
    → Ascends f w ts
    → Ascends f w (remove_task t ts)
unfolding remove_task
Ascends-remove_task f w t [] a = tt
Ascends-remove_task f w t (u ∷ us) a = elim (Bool-cases (u == t)) [
  | inl here ↦ rw here (Ascends-lower f w (f u) us a.0 a.1)
  | inr other ↦ rw other (a.0, Ascends-remove_task f (f u) t us a.1)
]

-- The order does not depend on a timer that is not in the list.
pub Ascends-frame :
    (f g : TimerId → ℕ) (w t : ℕ) (ts : List TimerId)
    → ((u : ℕ) → (u == t) ≡ false → g u ≡ f u)
    → has t ts ≡ false
    → Ascends f w ts
    → Ascends g w ts
Ascends-frame f g w t [] same absent a = tt
Ascends-frame f g w t (u ∷ us) same absent a =
    let e = same u (ground (arith, absent)) in
    (
      omega (arith, e, a.0),
      Ascends-lower g (g u) (f u) us (omega (arith, e))
          (Ascends-frame f g (f u) t us same (ground (arith, absent)) a.1),
    )

pub has-insert_timer :
    (f : TimerId → ℕ) (u t : ℕ) (ts : List TimerId)
    → has u (insert_timer f t ts) ≡ ((u == t) || has u ts)
unfolding insert_timer
has-insert_timer f u t [] = refl
has-insert_timer f u t (v ∷ vs) = elim (Bool-cases (ltb (f v) (f t))) [
  | inl before ↦ rw before (ground (arith, has-insert_timer f u t vs))
  | inr behind ↦ rw behind refl
]

pub has-removed :
    (u t : ℕ) (ts : List TimerId)
    → AllDistinct ts
    → has u (remove_task t ts) ≡ (not (u == t) && has u ts)
unfolding remove_task
has-removed u t [] d = ground arith
has-removed u t (v ∷ vs) d = elim (Bool-cases (v == t)) [
  | inl here ↦ rw here (elim (Bool-cases (u == t)) [
    | inl same ↦
        let absent = ap (λ x. has x vs) (==→eq u v (ground (arith, same, here))) ∙ d.0 in
        ground (arith, same, absent)
    | inr apart ↦ ground (arith, apart, here)
  ])
  | inr other ↦ rw other (ground (arith, other, has-removed u t vs d.1))
]

pub AllDistinct-insert_timer :
    (f : TimerId → ℕ) (t : ℕ) (ts : List TimerId)
    → has t ts ≡ false
    → AllDistinct ts
    → AllDistinct (insert_timer f t ts)
unfolding insert_timer
AllDistinct-insert_timer f t [] absent d = (refl, tt)
AllDistinct-insert_timer f t (v ∷ vs) absent d = elim (Bool-cases (ltb (f v) (f t))) [
  | inl before ↦ rw before (
    has-insert_timer f v t vs ∙ ground (arith, absent, d.0),
    AllDistinct-insert_timer f t vs (ground (arith, absent)) d.1,
  )
  | inr behind ↦ rw behind (absent, d)
]

pub AllDistinct-remove_task :
    (t : ℕ) (ts : List TimerId) → AllDistinct ts → AllDistinct (remove_task t ts)
unfolding remove_task
AllDistinct-remove_task t [] d = tt
AllDistinct-remove_task t (v ∷ vs) d = elim (Bool-cases (v == t)) [
  | inl here ↦ rw here d.1
  | inr other ↦
      rw other (has-removed v t vs d.1 ∙ ground (arith, d.0), AllDistinct-remove_task t vs d.1)
]

-- The timers that have expired at a time.
abbrev pub expired : (TimerId → ℕ) → ℕ → List TimerId → List TimerId
expired f now [] = []
expired f now (t ∷ ts) = let rest = expired f now ts in if leb (f t) now then t ∷ rest else rest

pub expired-none :
    (f : TimerId → ℕ) (w now : ℕ) (ts : List TimerId)
    → Ascends f w ts
    → now < w
    → expired f now ts ≡ []
expired-none f w now [] a h = refl
expired-none f w now (t ∷ ts) a h =
    let left : leb (f t) now ≡ false = ground (arith, a.0, h) in
    rw left (expired-none f (f t) now ts a.1 (omega (arith, a.0, h)))

pub expired-insert_timer :
    (f : TimerId → ℕ) (now t : ℕ) (ts : List TimerId)
    → now < f t
    → expired f now (insert_timer f t ts) ≡ expired f now ts
unfolding insert_timer
expired-insert_timer f now t [] h = ground (arith, h)
expired-insert_timer f now t (u ∷ us) h =
    let left : leb (f t) now ≡ false = ground (arith, h) in
    elim (Bool-cases (ltb (f u) (f t))) [
      | inl before ↦
          rw before
            (ap (λ l. if leb (f u) now then u ∷ l else l) (expired-insert_timer f now t us h))
      | inr behind ↦ rw (behind, left) refl
    ]

pub expired-frame :
    (f g : TimerId → ℕ) (now t : ℕ) (ts : List TimerId)
    → ((u : ℕ) → (u == t) ≡ false → g u ≡ f u)
    → has t ts ≡ false
    → expired g now ts ≡ expired f now ts
expired-frame f g now t [] same absent = refl
expired-frame f g now t (u ∷ us) same absent =
    let e = same u (ground (arith, absent)) in
    let ih = expired-frame f g now t us same (ground (arith, absent)) in
    ap (λ k. if leb k now then u ∷ expired g now us else expired g now us) e
    ∙ ap (λ l. if leb (f u) now then u ∷ l else l) ih

pub has-expired :
    (f : TimerId → ℕ) (now u : ℕ) (ts : List TimerId)
    → has u ts ≡ false
    → has u (expired f now ts) ≡ false
has-expired f now u [] h = refl
has-expired f now u (t ∷ ts) h = ground (arith, h, has-expired f now u ts)
