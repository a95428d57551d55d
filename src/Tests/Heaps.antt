-- ===== src/Tests/Heaps.antt =====
-- A global heap with two tasks (src/heap.rs).
use int_os.Base.{ℕ, ◌≤◌, ◌<◌, ◌+◌, ◌*◌, ◌≡◌, ◌⊎◌, refl, arith, List, [], ◌∷◌}
use int_os.Heap.{
  new, Layout, BumpAllocator, GlobalPmHeap, per_task_alloc, align_up, create_per_task_pm_heap,
  global_alloc, init,
}
use int_os.Heap.Align.{Fits, per_task_alloc-bounds}
use int_os.Heap.Blocks.{Separated}
use int_os.Heap.Tasks.{tasks_blocks, tasks_blocks-Separated}

abbrev word : Layout
word = record { size = 4; align = 4 }

abbrev pair_of_bytes : Layout
pair_of_bytes = record { size = 2; align = 1 }

abbrev whole : BumpAllocator
whole = record { heap_start = 1000; heap_end = 1016; next = 1002 }

placed : per_task_alloc word whole ≡ (1004, record whole { next = 1008 })
unfolding per_task_alloc align_up
placed = refl

word-Fits : Fits 1016 word
word-Fits = (2, omega arith, refl, omega arith)

per_task_alloc-bounds_example :
    (q : ℕ) × (1002 ≤ q * 4)
    × (q * 4 < 1002 + 4)
    × (((q * 4 + 4 ≤ 1016)
          × (per_task_alloc word whole ≡ (q * 4, record whole { next = q * 4 + 4 })))
        ⊎ ((1016 < q * 4 + 4) × (per_task_alloc word whole ≡ (0, whole))))
per_task_alloc-bounds_example =
    per_task_alloc-bounds word whole (omega arith, omega arith, omega arith) word-Fits

abbrev memory : GlobalPmHeap
memory = record { end = 1032; next = 1000 }

-- The third allocation of the first task does not fit; the heap of the third task is refused.
abbrev tasks : List (ℕ × List Layout)
tasks = (8, pair_of_bytes ∷ word ∷ word ∷ []) ∷ (16, word ∷ []) ∷ (16, word ∷ []) ∷ []

used : tasks_blocks tasks memory ≡ (1000, 2) ∷ (1004, 4) ∷ (1008, 4) ∷ []
unfolding new create_per_task_pm_heap global_alloc init per_task_alloc align_up
used = refl

word-Fits_memory : Fits 1032 word
word-Fits_memory = (2, omega arith, refl, omega arith)

bytes-Fits_memory : Fits 1032 pair_of_bytes
bytes-Fits_memory = (0, omega arith, refl, omega arith)

tasks_blocks-Separated_example : Separated 1000 (tasks_blocks tasks memory) 1032
tasks_blocks-Separated_example = tasks_blocks-Separated tasks memory (omega arith) (
  (omega arith, (bytes-Fits_memory, (word-Fits_memory, (word-Fits_memory, tt)))),
  ((omega arith, (word-Fits_memory, tt)), ((omega arith, (word-Fits_memory, tt)), tt)),
)
