-- ===== src/Heap/Tasks.antt =====
-- The heaps of several tasks (src/heap.rs).
use int_os.Base.{
  ℕ, sym, ◌+◌, ◌≤◌, ◌<◌, ◌≡◌, ◌⊎◌, inl, inr, refl, arith, none, some, List, [], ◌∷◌, ◌++◌, ◌==◌,
  ltb, usize_mod, Bool-cases, ◌%◌, ap,
}
use mathlib.Core.Path.{subst}
use int_os.Heap.{
  new, Layout, BumpAllocator, GlobalPmHeap, init, create_per_task_pm_heap, global_alloc,
}
use int_os.Heap.Blocks.{
  blocks, Separated, AllFit, Separated-append, AllFit-lower, blocks-Separated, blocks-empty,
}

-- The blocks of tasks that are created one after the other, each with the size of its heap and what it
-- allocates. A task whose heap is refused keeps the one without memory.
abbrev pub tasks_blocks : List (ℕ × List Layout) → GlobalPmHeap → List (ℕ × ℕ)
tasks_blocks [] g = []
tasks_blocks (t ∷ ts) g = elim (create_per_task_pm_heap t.0 g) [
  | none ↦ blocks t.1 new ++ tasks_blocks ts g
  | some r ↦ blocks t.1 r.0 ++ tasks_blocks ts r.1
]

abbrev pub TasksFit : ℕ → List (ℕ × List Layout) → Type 0
TasksFit end [] = Unit
TasksFit end (t ∷ ts) = ((end + t.0 < usize_mod) × AllFit end t.1) × TasksFit end ts

-- What the creation of a heap gives.
create_cases :
    (size : ℕ) (g : GlobalPmHeap)
    → g.next ≤ g.end
    → g.end + size < usize_mod
    → ((size ≡ 0) × (create_per_task_pm_heap size g ≡ some (init 0 0, g)))
      ⊎ (create_per_task_pm_heap size g ≡ none)
      ⊎ ((g.next + size ≤ g.end)
          × (create_per_task_pm_heap size g
              ≡ some (
                record { heap_start = g.next; heap_end = g.next + size; next = g.next },
                record g { next = g.next + size },
              )))
unfolding create_per_task_pm_heap global_alloc init
create_cases size g le lt = elim (Bool-cases (size == 0)) [
  | inl none_wanted ↦ inl (ground (arith, none_wanted), rw none_wanted refl)
  | inr wanted ↦
      let sum : (g.next + size) % usize_mod ≡ g.next + size = omega arith in
      elim (Bool-cases (ltb g.end (g.next + size))) [
        | inl full ↦ inr (inl (rw (wanted, sum, full) refl))
        | inr room ↦ inr (
            inr (
              ground (arith, room),
              rw (wanted, sum, room)
                  (ap
                    (λ e. some (
                      record { heap_start = g.next; heap_end = e; next = g.next },
                      record g { next = g.next + size },
                    ))
                    sum),
            ))
      ]
]

-- The two outcomes of a creation.
created_blocks :
    (t : ℕ × List Layout) (ts : List (ℕ × List Layout)) (g : GlobalPmHeap) (lo hi : ℕ)
    (r : BumpAllocator × GlobalPmHeap)
    → create_per_task_pm_heap t.0 g ≡ some r
    → Separated lo (blocks t.1 r.0 ++ tasks_blocks ts r.1) hi
    → Separated lo (tasks_blocks (t ∷ ts) g) hi
created_blocks t ts g lo hi r e s = rw (tasks_blocks, e) s

refused_blocks :
    (t : ℕ × List Layout) (ts : List (ℕ × List Layout)) (g : GlobalPmHeap) (lo hi : ℕ)
    → create_per_task_pm_heap t.0 g ≡ none
    → Separated lo (blocks t.1 new ++ tasks_blocks ts g) hi
    → Separated lo (tasks_blocks (t ∷ ts) g) hi
refused_blocks t ts g lo hi e s = rw (tasks_blocks, e) s

-- The heap of a task without memory adds no block.
no_blocks :
    (ls : List Layout) (b : BumpAllocator) (e lo hi : ℕ) (ys : List (ℕ × ℕ))
    → b ≡ new
    → AllFit e ls
    → Separated lo ys hi
    → Separated lo (blocks ls b ++ ys) hi
unfolding new
no_blocks ls b e lo hi ys is_new fit s =
    subst (λ c. Separated lo (blocks ls c ++ ys) hi) (sym is_new)
      (subst (λ xs. Separated lo (xs ++ ys) hi)
        (sym (blocks-empty ls new refl refl refl (AllFit-lower e 0 ls (omega arith) fit))) s)

init-new : init 0 0 ≡ new
unfolding init new
init-new = refl

-- The blocks of all tasks, in the order of the tasks and of their allocations, lie one behind the
-- other in the part of the global heap that was free: no two of them share a byte. The alignments are
-- powers of two, and neither they nor the sizes of the heaps overflow behind the end of the global
-- heap.
pub tasks_blocks-Separated :
    (ts : List (ℕ × List Layout)) (g : GlobalPmHeap)
    → g.next ≤ g.end
    → TasksFit g.end ts
    → Separated g.next (tasks_blocks ts g) g.end
tasks_blocks-Separated [] g le f = le
tasks_blocks-Separated (t ∷ ts) g le f = elim (create_cases t.0 g le f.0.0) [
  | inl (none_wanted, e) ↦ created_blocks t ts g g.next g.end _ e (
      no_blocks t.1 (init 0 0) g.end g.next g.end _ init-new f.0.1
        (tasks_blocks-Separated ts g le f.1))
  | inr (inl e) ↦
      refused_blocks t ts g g.next g.end e
        (no_blocks t.1 new g.end g.next g.end _ refl f.0.1 (tasks_blocks-Separated ts g le f.1))
  | inr (inr (room, e)) ↦ created_blocks t ts g g.next g.end _ e (
      Separated-append g.next (g.next + t.0) g.end _ _
        (blocks-Separated t.1
          (record { heap_start = g.next; heap_end = g.next + t.0; next = g.next })
          (omega arith, omega arith, omega (arith, f.0.0, room))
          (AllFit-lower g.end (g.next + t.0) t.1 room f.0.1))
        (tasks_blocks-Separated ts (record g { next = g.next + t.0 }) room f.1))
]
