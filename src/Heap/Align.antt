-- ===== src/Heap/Align.antt =====
-- One allocation (src/heap.rs, with `align_up` of src/util.rs).
use int_os.Base.{
  ℕ, ◌+◌, ◌-◌, ◌*◌, ◌%◌, ◌^◌, ◌≤◌, ◌<◌, ◌≡◌, ◌⊎◌, inl, inr, ap, ◌∙◌, arith, true, false, ltb,
  usize_mod, Bool-cases, and-clear, sym, pow-pos, refl,
}
use Prim.Native.Nat.{bit_and}
use int_os.Semaphore.{checked_add}
use int_os.Heap.{Layout, BumpAllocator, align_up, per_task_alloc}

abbrev pub IsHeap : BumpAllocator → Type 0
IsHeap b = (b.heap_start ≤ b.next) × (b.next ≤ b.heap_end) × (b.heap_end < usize_mod)

-- An alignment up to the end of the heap does not overflow.
abbrev pub Fits : ℕ → Layout → Type 0
Fits heap_end l = (k : ℕ) × (k < 32) × (l.align ≡ 2 ^ k) × (heap_end + l.align ≤ usize_mod)

-- `align_up` gives the first multiple of the alignment at the address or behind it.
pub align_up-multiple :
    (addr k : ℕ)
    → k < 32
    → addr + 2 ^ k ≤ usize_mod
    → (q : ℕ) × (align_up addr (2 ^ k) ≡ q * 2 ^ k)
      × (addr ≤ q * 2 ^ k)
      × (q * 2 ^ k < addr + 2 ^ k)
unfolding align_up
align_up-multiple addr k hk h =
    let pos : 0 < 2 ^ k = pow-pos k in
    let c = and-clear k (addr + 2 ^ k - 1) hk (omega arith) in
    let low : (addr + 2 ^ k - 1) % usize_mod ≡ addr + 2 ^ k - 1 = omega arith in
    let mask : usize_mod - 1 - (2 ^ k - 1) ≡ usize_mod - 2 ^ k = omega arith in
    (
      c.0,
      ap (λ x. bit_and x (usize_mod - 1 - (2 ^ k - 1))) low
          ∙ ap (bit_and (addr + 2 ^ k - 1)) mask
          ∙ c.1,
      omega (arith, c.3),
      omega (arith, c.2),
    )

-- What an allocation does when the block from `p` does not fit, and when it does.
alloc_full :
    (l : Layout) (b : BumpAllocator) (p : ℕ)
    → align_up b.next l.align ≡ p
    → b.heap_end < usize_mod
    → b.heap_end < p + l.size
    → per_task_alloc l b ≡ (0, b)
unfolding per_task_alloc checked_add
alloc_full l b p e h full = elim (Bool-cases (ltb (p + l.size) usize_mod)) [
  | inl fits ↦
      let o : ltb b.heap_end (p + l.size) ≡ true = ground arith in
      rw (e, fits, o, per_task_alloc, checked_add) refl
  | inr over ↦ rw (e, over, per_task_alloc, checked_add) refl
]

alloc_room :
    (l : Layout) (b : BumpAllocator) (p : ℕ)
    → align_up b.next l.align ≡ p
    → b.heap_end < usize_mod
    → p + l.size ≤ b.heap_end
    → per_task_alloc l b ≡ (p, record b { next = p + l.size })
unfolding per_task_alloc checked_add
alloc_room l b p e h room =
    let fits : ltb (p + l.size) usize_mod ≡ true = ground arith in
    let o : ltb b.heap_end (p + l.size) ≡ false = ground arith in
    rw (e, fits, o, per_task_alloc, checked_add) (ap (λ x. (x, record b { next = p + l.size })) e)

-- An allocation from a heap, with an alignment that is a power of two and does not overflow behind the
-- end of the heap, gives the first aligned address at `next` or behind it, if the block from there
-- ends within the heap, and puts `next` to the end of the block; else it gives the null pointer and
-- changes nothing.
pub per_task_alloc-bounds :
    (l : Layout) (b : BumpAllocator)
    → IsHeap b
    → Fits b.heap_end l
    → (q : ℕ) × (b.next ≤ q * l.align)
      × (q * l.align < b.next + l.align)
      × (((q * l.align + l.size ≤ b.heap_end)
            × (per_task_alloc l b ≡ (q * l.align, record b { next = q * l.align + l.size })))
          ⊎ ((b.heap_end < q * l.align + l.size) × (per_task_alloc l b ≡ (0, b))))
per_task_alloc-bounds l b heap (k, hk, e, h) =
    let a = align_up-multiple b.next k hk (omega (arith, heap.1, e, h)) in
    let p : a.0 * l.align ≡ a.0 * 2 ^ k = ap (λ x. a.0 * x) e in
    let up : align_up b.next l.align ≡ a.0 * l.align = ap (align_up b.next) e ∙ a.1 ∙ sym p in
    (
      a.0,
      omega (arith, a.2, p),
      omega (arith, a.3, p, e),
      elim (Bool-cases (ltb b.heap_end (a.0 * l.align + l.size))) [
        | inl full ↦
            let lt : b.heap_end < a.0 * l.align + l.size = ground (arith, full) in
            inr (lt, alloc_full l b (a.0 * l.align) up heap.2 lt)
        | inr room ↦
            let le : a.0 * l.align + l.size ≤ b.heap_end = ground (arith, room) in
            inl (le, alloc_room l b (a.0 * l.align) up heap.2 le)
      ],
    )
