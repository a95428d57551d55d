-- ===== src/Tests/Rings.antt =====
-- A queue of two numbers (src/user/pqueue.rs).
use int_os.Base.{ℕ, ◌-◌, ◌≡◌, refl, arith, none, some, List, [], ◌∷◌}
use int_os.PQueue.{PQueue, next, try_new, push_back, pop_front, peek_front, clear}
use int_os.PQueue.Refines.{Op, push, pop, peek, reset, run, list_run, new-refines, Holds}
use int_os.PQueue.Aborted.{roll_back, pop-push-roll_back}

abbrev zeros : ℕ → ℕ
zeros a = 0

abbrev fresh : PQueue ℕ
fresh = record { buf = zeros; cap = 2; head = 0; tail = 0; len = 0 }

is_new : try_new zeros 2 ≡ some fresh
unfolding try_new
is_new = refl

abbrev operations : List (Op ℕ)
operations = push 5 ∷ push 6 ∷ pop ∷ peek ∷ push 7 ∷ reset ∷ pop ∷ push 8 ∷ pop ∷ []

ran :
    run operations fresh
    ≡ some (none ∷ none ∷ some 5 ∷ some 6 ∷ none ∷ none ∷ none ∷ none ∷ some 8 ∷ [])
unfolding push_back pop_front peek_front clear next
ran = refl

new-refines_example : run operations fresh ≡ list_run 2 operations []
new-refines_example = new-refines zeros 2 fresh operations is_new

-- A full queue that starts in the middle.
abbrev elements : ℕ → ℕ
elements a = 9 - a

abbrev full : PQueue ℕ
full = record { buf = elements; cap = 2; head = 1; tail = 1; len = 2 }

full-Holds : Holds full (8 ∷ 9 ∷ [])
unfolding next
full-Holds = (omega arith, refl, omega arith, refl, (refl, (refl, tt)))

pop-push-roll_back_example :
    ((pop_front full).0 ≡ some 8)
    × (later : PQueue ℕ) × (push_back 3 (pop_front full).1 ≡ some later)
    × ((pop_front (roll_back full later)).0 ≡ some 3)
pop-push-roll_back_example = pop-push-roll_back full 8 3 (9 ∷ []) full-Holds refl
