-- ===== src/Messages/Wakes.antt =====
-- The wake-up of the first blocked task (src/queue.rs).
use mathlib.Core.Path.{subst}
use int_os.Base.{
  ℕ, ◌+◌, ◌≤◌, ◌≡◌, ◌⊎◌, refl, sym, ap, ◌∙◌, inl, inr, arith, List, [], ◌∷◌, List-cases, length,
}
use int_os.Schedule.{Delayed}
use int_os.Messages.{Channel, wake_reader, wake_writer}

-- The first of the blocked readers is woken.
wake_reader-none : (c : Channel) → c.blocked_readers ≡ [] → wake_reader c ≡ c
unfolding wake_reader
wake_reader-none c empty =
    ap
      (λ l. elim l [
        | [] ↦ c
        | d ∷ ds ↦ record c { blocked_readers = ds; woken_readers = d.task ∷ c.woken_readers }
      ])
      empty

wake_reader-first :
    (c : Channel) (d : Delayed) (ds : List Delayed)
    → c.blocked_readers ≡ d ∷ ds
    → wake_reader c ≡ record c { blocked_readers = ds; woken_readers = d.task ∷ c.woken_readers }
unfolding wake_reader
wake_reader-first c d ds front =
    ap
      (λ l. elim l [
        | [] ↦ c
        | d ∷ ds ↦ record c { blocked_readers = ds; woken_readers = d.task ∷ c.woken_readers }
      ])
      front

abbrev pub WakesReader : Channel → Channel → Type 0
WakesReader c c' =
    (c'.queue ≡ c.queue)
    × (c'.blocked_writers ≡ c.blocked_writers)
    × (c'.woken_writers ≡ c.woken_writers)
    × ((n : ℕ)
        → (c.blocked_readers ≡ []) ⊎ (n ≤ length c.woken_readers)
        → (c'.blocked_readers ≡ []) ⊎ (n + 1 ≤ length c'.woken_readers))

pub wake_reader-WakesReader : (c : Channel) → WakesReader c (wake_reader c)
wake_reader-WakesReader c = elim (List-cases c.blocked_readers) [
  | inl empty ↦
      subst (WakesReader c) (sym (wake_reader-none c empty)) (refl, refl, refl, λ n h. inl empty)
  | inr (d, ds, front) ↦ subst (WakesReader c) (sym (wake_reader-first c d ds front)) (
    refl,
    refl,
    refl,
    λ n h. elim h [
      | inl empty ↦ let absent : [] ≡ d ∷ ds = sym empty ∙ front in absurd (ground (arith, absent))
      | inr enough ↦ inr (omega (arith, enough))
    ],
  )
]

-- The first of the blocked writers is woken.
wake_writer-none : (c : Channel) → c.blocked_writers ≡ [] → wake_writer c ≡ c
unfolding wake_writer
wake_writer-none c empty =
    ap
      (λ l. elim l [
        | [] ↦ c
        | d ∷ ds ↦ record c { blocked_writers = ds; woken_writers = d.task ∷ c.woken_writers }
      ])
      empty

wake_writer-first :
    (c : Channel) (d : Delayed) (ds : List Delayed)
    → c.blocked_writers ≡ d ∷ ds
    → wake_writer c ≡ record c { blocked_writers = ds; woken_writers = d.task ∷ c.woken_writers }
unfolding wake_writer
wake_writer-first c d ds front =
    ap
      (λ l. elim l [
        | [] ↦ c
        | d ∷ ds ↦ record c { blocked_writers = ds; woken_writers = d.task ∷ c.woken_writers }
      ])
      front

abbrev pub WakesWriter : Channel → Channel → Type 0
WakesWriter c c' =
    (c'.queue ≡ c.queue)
    × (c'.blocked_readers ≡ c.blocked_readers)
    × (c'.woken_readers ≡ c.woken_readers)
    × ((n : ℕ)
        → (c.blocked_writers ≡ []) ⊎ (n ≤ length c.woken_writers)
        → (c'.blocked_writers ≡ []) ⊎ (n + 1 ≤ length c'.woken_writers))

pub wake_writer-WakesWriter : (c : Channel) → WakesWriter c (wake_writer c)
wake_writer-WakesWriter c = elim (List-cases c.blocked_writers) [
  | inl empty ↦
      subst (WakesWriter c) (sym (wake_writer-none c empty)) (refl, refl, refl, λ n h. inl empty)
  | inr (d, ds, front) ↦ subst (WakesWriter c) (sym (wake_writer-first c d ds front)) (
    refl,
    refl,
    refl,
    λ n h. elim h [
      | inl empty ↦ let absent : [] ≡ d ∷ ds = sym empty ∙ front in absurd (ground (arith, absent))
      | inr enough ↦ inr (omega (arith, enough))
    ],
  )
]
