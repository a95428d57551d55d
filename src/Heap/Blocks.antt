-- ===== src/Heap/Blocks.antt =====
-- The blocks that a sequence of allocations gives (src/heap.rs).
use int_os.Base.{
  ℕ, ◌+◌, ◌≤◌, ◌≡◌, inl, inr, arith, List, [], ◌∷◌, ◌++◌, ◌==◌, if◌then◌else◌, Bool-cases, ◌*◌,
  refl,
}
use int_os.Heap.{Layout, BumpAllocator, per_task_alloc}
use int_os.Heap.Align.{IsHeap, Fits, per_task_alloc-bounds}

-- Each block with its first address and its size; a null pointer gives none.
abbrev pub blocks : List Layout → BumpAllocator → List (ℕ × ℕ)
blocks [] b = []
blocks (l ∷ ls) b =
    let rest = blocks ls (per_task_alloc l b).1 in
    if (per_task_alloc l b).0 == 0 then rest else ((per_task_alloc l b).0, l.size) ∷ rest

-- The blocks lie between the two addresses, each behind the end of the one before.
abbrev pub Separated : ℕ → List (ℕ × ℕ) → ℕ → Type 0
Separated lo [] hi = lo ≤ hi
Separated lo (x ∷ xs) hi = (lo ≤ x.0) × Separated (x.0 + x.1) xs hi

abbrev pub AllFit : ℕ → List Layout → Type 0
AllFit heap_end [] = Unit
AllFit heap_end (l ∷ ls) = Fits heap_end l × AllFit heap_end ls

pub Separated-widen :
    (lo lo' hi hi' : ℕ) (xs : List (ℕ × ℕ))
    → lo' ≤ lo
    → hi ≤ hi'
    → Separated lo xs hi
    → Separated lo' xs hi'
Separated-widen lo lo' hi hi' [] h k s = omega (arith, s)
Separated-widen lo lo' hi hi' (x ∷ xs) h k s =
    (omega (arith, s.0), Separated-widen (x.0 + x.1) (x.0 + x.1) hi hi' xs (omega arith) k s.1)

pub Separated-append :
    (lo mid hi : ℕ) (xs ys : List (ℕ × ℕ))
    → Separated lo xs mid
    → Separated mid ys hi
    → Separated lo (xs ++ ys) hi
Separated-append lo mid hi [] ys s t = Separated-widen mid lo hi hi ys s (omega arith) t
Separated-append lo mid hi (x ∷ xs) ys s t = (s.0, Separated-append (x.0 + x.1) mid hi xs ys s.1 t)

pub AllFit-lower : (e e' : ℕ) (ls : List Layout) → e' ≤ e → AllFit e ls → AllFit e' ls
AllFit-lower e e' [] h f = tt
AllFit-lower e e' (l ∷ ls) h ((k, hk, a, o), f) =
    ((k, hk, a, omega arith), AllFit-lower e e' ls h f)

-- The step of an allocation that gives the pointer `p`, null or not.
add_block :
    (lo p n hi : ℕ) (rest : List (ℕ × ℕ))
    → lo ≤ p
    → Separated (p + n) rest hi
    → Separated lo (if p == 0 then rest else (p, n) ∷ rest) hi
add_block lo p n hi rest h s = elim (Bool-cases (p == 0)) [
  | inl null ↦ rw null (Separated-widen (p + n) lo hi hi rest (omega arith) (omega arith) s)
  | inr block ↦ rw block (h, s)
]

pub blocks-Separated :
    (ls : List Layout) (b : BumpAllocator)
    → IsHeap b
    → AllFit b.heap_end ls
    → Separated b.next (blocks ls b) b.heap_end
blocks-Separated [] b heap f = heap.1
blocks-Separated (l ∷ ls) b heap f =
    let a = per_task_alloc-bounds l b heap f.0 in
    elim a.3 [
      | inl (room, e) ↦ rw e (
          add_block b.next (a.0 * l.align) l.size b.heap_end _ a.1 (
            blocks-Separated ls (record b { next = a.0 * l.align + l.size })
              (omega (arith, heap.0, a.1), room, heap.2) f.1))
      | inr (full, e) ↦ rw e (blocks-Separated ls b heap f.1)
    ]

-- A heap without memory gives null pointers only.
pub blocks-empty :
    (ls : List Layout) (b : BumpAllocator)
    → b.heap_start ≡ 0
    → b.next ≡ 0
    → b.heap_end ≡ 0
    → AllFit 0 ls
    → blocks ls b ≡ []
blocks-empty [] b s n e f = refl
blocks-empty (l ∷ ls) b s n e (fl, f) =
    let fits : Fits b.heap_end l = rw e fl in
    let a = per_task_alloc-bounds l b (omega arith, omega arith, omega (arith, e)) fits in
    elim a.3 [
      | inl (room, r) ↦
          let p : a.0 * l.align ≡ 0 = omega (arith, room, e) in
          rw (r, p)
            (blocks-empty ls (record b { next = 0 + l.size }) s (omega (arith, room, e)) e f)
      | inr (full, r) ↦ rw r (blocks-empty ls b s n e f)
    ]
