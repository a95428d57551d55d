-- ===== src/Heap.antt =====
-- The heaps of src/heap.rs: the bump allocators, and the memory that they get from the global one. A
-- pointer is a number, and 0 the null pointer. `GlobalPMHeap` and `PerTaskPMBumpAllocator` log
-- themselves before they change, so a transaction that fails is undone by the journal (Journal).
-- `alloc_start` and the sums without a check wrap around, as in a release.
pub mod Align
pub mod Blocks
pub mod Tasks
use int_os.Base.{
  ℕ, ◌+◌, ◌-◌, ◌%◌, Option, none, some, List, [], ◌∷◌, ltb, ◌==◌, if◌then◌else◌, usize_mod,
}
use Prim.Native.Nat.{bit_and}
use int_os.Semaphore.{checked_add}

-- `Layout` of the language: `align` is a power of two.
pub record Layout : Type 0 where
  pub size : ℕ
  pub align : ℕ

pub record BumpAllocator : Type 0 where
  pub heap_start : ℕ
  pub heap_end : ℕ
  pub next : ℕ

pub record MemStat : Type 0 where
  pub mem_used : ℕ
  pub mem_left : ℕ

pub record GlobalPmHeap : Type 0 where
  pub end : ℕ
  pub next : ℕ

-- `align_up` of src/util.rs: `!(align - 1)` is the mask of all other bits.
unfoldable pub align_up : ℕ → ℕ → ℕ
align_up addr align = bit_and ((addr + align - 1) % usize_mod) (usize_mod - 1 - (align - 1))

-- `alloc` of `BumpAllocator` does the same, without the message where it fails.
unfoldable pub per_task_alloc : Layout → BumpAllocator → ℕ × BumpAllocator
unfolding align_up checked_add
per_task_alloc layout b =
    let alloc_start = align_up b.next layout.align in
    elim (checked_add alloc_start layout.size) [
      | none ↦ (0, b)
      | some alloc_end ↦
          if ltb b.heap_end alloc_end then (0, b) else (alloc_start, record b { next = alloc_end })
    ]

unfoldable pub new : BumpAllocator
new = record { heap_start = 0; heap_end = 0; next = 0 }

-- `BumpAllocator::init`
unfoldable pub init : ℕ → ℕ → BumpAllocator
init heap_start heap_size = record {
  heap_start = heap_start;
  heap_end = (heap_start + heap_size) % usize_mod;
  next = heap_start;
}

unfoldable pub reset : BumpAllocator → BumpAllocator
reset b = record b { next = b.heap_start }

unfoldable pub stat : BumpAllocator → MemStat
stat b = record { mem_used = b.next - b.heap_start; mem_left = b.heap_end - b.next }

-- `GlobalPMHeap::alloc`; `none` stands for `ErrorCode::NoSpace`.
unfoldable pub global_alloc : ℕ → GlobalPmHeap → Option (ℕ × GlobalPmHeap)
global_alloc size g =
    if ltb g.end ((g.next + size) % usize_mod)
    then none
    else some (g.next, record g { next = (g.next + size) % usize_mod })

unfoldable pub create_per_task_pm_heap : ℕ → GlobalPmHeap → Option (BumpAllocator × GlobalPmHeap)
unfolding global_alloc init
create_per_task_pm_heap size g =
    if size == 0
    then some (init 0 0, g)
    else elim (global_alloc size g) [ none ↦ none | some r ↦ some (init r.0 size, r.1) ]
