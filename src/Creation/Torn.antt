-- ===== src/Creation/Torn.antt =====
-- The creation of a task that is stopped in its transaction (src/task.rs). The journal restores the number
-- of tasks and the global heap; the task's own fields, the current task and the highest priority
-- are written without a log.
use mathlib.Core.Path.{subst}
use int_os.Base.{
  ℕ, ◌≡◌, ◌⊎◌, refl, sym, ap, ◌∙◌, inl, inr, arith, Bool, true, false, Option, some, ltb,
  if◌then◌else◌, Bool-cases, update, update-update,
}
use int_os.OpLog.{TaskId}
use int_os.Heap.{BumpAllocator}
use int_os.Creation.{TaskParams, Kernel, committed, new_heap}

-- The fields of the new task, the current one and the highest priority have other values.
abbrev pub noise : ℕ → Bool → BumpAllocator → Option TaskId → ℕ → Kernel → Kernel
noise x y z c m k = record k {
  priority = update k.priority k.task_cnt x;
  in_list = update k.in_list k.task_cnt y;
  pm_heap = update k.pm_heap k.task_cnt z;
  current = c;
  cur_max_priority = m;
}

-- The current task is written before the highest priority.
abbrev pub Raised : TaskParams → Kernel → Option TaskId → ℕ → Type 0
Raised p k c m =
    ((c ≡ k.current) × (m ≡ k.cur_max_priority))
    ⊎ ((ltb p.prio k.cur_max_priority ≡ true)
        × (c ≡ some k.task_cnt)
        × ((m ≡ k.cur_max_priority) ⊎ (m ≡ p.prio)))

abbrev pub Torn : TaskParams → Kernel → Kernel → Type 0
Torn p k k' =
    (x : ℕ) × (y : Bool) × (z : BumpAllocator) × (c : Option TaskId) × (m : ℕ) × Raised p k c m
    × (k' ≡ noise x y z c m k)

Raised-max :
    (p : TaskParams) (k : Kernel) (c : Option TaskId) (m : ℕ)
    → Raised p k c m
    → (if ltb p.prio m then p.prio else m)
      ≡ (if ltb p.prio k.cur_max_priority then p.prio else k.cur_max_priority)
Raised-max p k c m (inl (same, same_max)) = ap (λ m. if ltb p.prio m then p.prio else m) same_max
Raised-max p k c m (inr (higher, raised, inl same)) =
    ap (λ m. if ltb p.prio m then p.prio else m) same
Raised-max p k c m (inr (higher, raised, inr set)) =
    let lower : ltb p.prio p.prio ≡ false = ground arith in
    ap (λ m. if ltb p.prio m then p.prio else m) set ∙ rw (lower, higher) refl

Raised-current :
    (p : TaskParams) (k : Kernel) (c : Option TaskId) (m : ℕ)
    → Raised p k c m
    → (if ltb p.prio m then some k.task_cnt else c)
      ≡ (if ltb p.prio k.cur_max_priority then some k.task_cnt else k.current)
Raised-current p k c m (inl (same, same_max)) =
    ap (λ m. if ltb p.prio m then some k.task_cnt else c) same_max
    ∙ ap (λ c. if ltb p.prio k.cur_max_priority then some k.task_cnt else c) same
Raised-current p k c m (inr (higher, raised, rest)) = elim (Bool-cases (ltb p.prio m)) [
  | inl below ↦ rw (below, higher) refl
  | inr not_below ↦ rw (not_below, higher) raised
]

-- The transaction runs again, and ends as if it had not been stopped.
noise-committed :
    (p : TaskParams) (x : ℕ) (y : Bool) (z : BumpAllocator) (c : Option TaskId) (m : ℕ) (k : Kernel)
    → Raised p k c m
    → committed p (noise x y z c m k) ≡ committed p k
unfolding committed
noise-committed p x y z c m k r =
    let tid = k.task_cnt in
    let done = committed p k in
    let heap = (new_heap p.pmem_heap_sz k.global_heap).0 in
    let higher = ltb p.prio m in
    ap
      (λ i. record done {
        cur_max_priority = if higher then p.prio else m;
        current = if higher then some tid else c;
        in_list = i;
        priority = update (update k.priority tid x) tid p.prio;
        pm_heap = update (update k.pm_heap tid z) tid heap;
      })
      (update-update k.in_list tid y false)
    ∙ ap
        (λ q. record done {
          cur_max_priority = if higher then p.prio else m;
          current = if higher then some tid else c;
          priority = q;
          pm_heap = update (update k.pm_heap tid z) tid heap;
        })
        (update-update k.priority tid x p.prio)
    ∙ ap
        (λ h. record done {
          cur_max_priority = if higher then p.prio else m;
          current = if higher then some tid else c;
          pm_heap = h;
        })
        (update-update k.pm_heap tid z heap)
    ∙ ap (λ v. record done { cur_max_priority = v; current = if higher then some tid else c })
        (Raised-max p k c m r)
    ∙ ap (λ v. record done { current = v }) (Raised-current p k c m r)

Raised-again :
    (p : TaskParams) (x : ℕ) (y : Bool) (z : BumpAllocator) (c c' : Option TaskId) (m m' : ℕ)
    (k : Kernel)
    → Raised p k c m
    → Raised p (noise x y z c m k) c' m'
    → Raised p k c' m'
Raised-again p x y z c c' m m' k (inl (same, same_max)) (inl (same', same_max')) =
    inl (same' ∙ same, same_max' ∙ same_max)
Raised-again p x y z c c' m m' k (inl (same, same_max)) (inr (higher, raised, rest)) = inr (
  ap (ltb p.prio) (sym same_max) ∙ higher,
  raised,
  elim rest [ inl kept ↦ inl (kept ∙ same_max) | inr set ↦ inr set ],
)
Raised-again p x y z c c' m m' k (inr (higher, raised, rest)) (inl (same', same_max')) = inr (
  higher,
  same' ∙ raised,
  elim rest [ inl kept ↦ inl (same_max' ∙ kept) | inr set ↦ inr (same_max' ∙ set) ],
)
Raised-again p x y z c c' m m' k (inr (higher, raised, rest)) (inr (higher', raised', rest')) =
    inr (
      higher,
      raised',
      elim rest' [
        | inl kept' ↦ elim rest [ inl kept ↦ inl (kept' ∙ kept) | inr set ↦ inr (kept' ∙ set) ]
        | inr set' ↦ inr set'
      ],
    )

noise-noise :
    (x x' : ℕ) (y y' : Bool) (z z' : BumpAllocator) (c c' : Option TaskId) (m m' : ℕ) (k : Kernel)
    → noise x' y' z' c' m' (noise x y z c m k) ≡ noise x' y' z' c' m' k
noise-noise x x' y y' z z' c c' m m' k =
    let tid = k.task_cnt in
    let end = noise x' y' z' c' m' k in
    ap
      (λ q. record end {
        priority = q;
        in_list = update (update k.in_list tid y) tid y';
        pm_heap = update (update k.pm_heap tid z) tid z';
      })
      (update-update k.priority tid x x')
    ∙ ap (λ i. record end { in_list = i; pm_heap = update (update k.pm_heap tid z) tid z' })
        (update-update k.in_list tid y y')
    ∙ ap (λ h. record end { pm_heap = h }) (update-update k.pm_heap tid z z')

pub Torn-again : (p : TaskParams) (k k' k'' : Kernel) → Torn p k k' → Torn p k' k'' → Torn p k k''
Torn-again p k k' k'' (x, y, z, c, m, r, e) t =
    let (x', y', z', c', m', r', e') = subst (λ k'. Torn p k' k'') e t in
    (
      x',
      y',
      z',
      c',
      m',
      Raised-again p x y z c c' m m' k r r',
      e' ∙ noise-noise x x' y y' z z' c c' m m' k,
    )

pub Torn-committed : (p : TaskParams) (k k' : Kernel) → Torn p k k' → committed p k' ≡ committed p k
Torn-committed p k k' (x, y, z, c, m, r, e) = ap (committed p) e ∙ noise-committed p x y z c m k r
