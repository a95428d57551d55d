-- ===== src/Creation/Replays.antt =====
-- The replay of the creations that are done (src/task.rs, src/recover.rs).
use mathlib.Core.Path.{subst}
use int_os.Base.{
  if_yes, if_no, update_self, ℕ, ◌+◌, ◌≤◌, ◌<◌, ◌≡◌, ◌⊎◌, refl, sym, ap, ◌∙◌, inl, inr, arith, true,
  false, List, [], ◌∷◌, ◌++◌, length, length-append, leb, ◌==◌, Bool-cases,
}
use int_os.OpLog.{TaskId}
use int_os.Creation.{
  TaskParams, Kernel, Created, handle, no_space, invalid_param, committed, create_tx,
  insert_into_readylist, finish, create_task_static, boot, min_priority,
}
use int_os.Creation.Torn.{Torn, noise}

-- The tasks of the results are in their lists.
abbrev pub Inserted : Kernel → List Created → Type 0
Inserted k [] = Unit
Inserted k (handle t ∷ rs) = (t < k.task_cnt) × (k.in_list t ≡ true) × Inserted k rs
Inserted k (no_space ∷ rs) = Inserted k rs
Inserted k (invalid_param ∷ rs) = Inserted k rs

Inserted-keeps :
    (k k' : Kernel) (rs : List Created)
    → k.task_cnt ≤ k'.task_cnt
    → ((t : ℕ) → t < k.task_cnt → k.in_list t ≡ true → k'.in_list t ≡ true)
    → Inserted k rs
    → Inserted k' rs
Inserted-keeps k k' [] more stays h = tt
Inserted-keeps k k' (handle t ∷ rs) more stays h =
    (omega (arith, more, h.0), stays t h.0 h.1, Inserted-keeps k k' rs more stays h.2)
Inserted-keeps k k' (no_space ∷ rs) more stays h = Inserted-keeps k k' rs more stays h
Inserted-keeps k k' (invalid_param ∷ rs) more stays h = Inserted-keeps k k' rs more stays h

Inserted-append :
    (k : Kernel) (rs ts : List Created) → Inserted k rs → Inserted k ts → Inserted k (rs ++ ts)
Inserted-append k [] ts h i = i
Inserted-append k (handle t ∷ rs) ts h i = (h.0, h.1, Inserted-append k rs ts h.2 i)
Inserted-append k (no_space ∷ rs) ts h i = Inserted-append k rs ts h i
Inserted-append k (invalid_param ∷ rs) ts h i = Inserted-append k rs ts h i

pub Inserted-Torn :
    (p : TaskParams) (k k' : Kernel) (rs : List Created)
    → Torn p k k'
    → Inserted k rs
    → Inserted k' rs
Inserted-Torn p k k' rs (x, y, z, c, m, r, e) h =
    subst (λ k'. Inserted k' rs) (sym e)
      (Inserted-keeps k (noise x y z c m k) rs (omega arith)
        (λ t old there.
          let other : (t == k.task_cnt) ≡ false = ground (arith, old) in rw other there)
        h)

-- A transaction that commits leaves the tasks before it.
committed-Inserted :
    (p : TaskParams) (k : Kernel) (rs : List Created) → Inserted k rs → Inserted (committed p k) rs
unfolding committed
committed-Inserted p k rs h =
    Inserted-keeps k (committed p k) rs (omega arith)
      (λ t old there. let other : (t == k.task_cnt) ≡ false = ground (arith, old) in rw other there)
      h

-- The three ends of the transaction.
abbrev pub Valid : ℕ → TaskParams → Kernel → Type 0
Valid limit p k = (leb limit k.task_cnt ≡ false) × (leb min_priority p.prio ≡ false)

pub create_tx-Valid :
    (limit : ℕ) (p : TaskParams) (k : Kernel)
    → Valid limit p k
    → create_tx limit p k ≡ (handle k.task_cnt, committed p k)
unfolding create_tx
create_tx-Valid limit p k v = rw (create_tx, v.0, v.1) refl

abbrev refused : Created → Kernel → Kernel
refused r k = record k { results = k.results ++ (r ∷ []) }

create_tx-cases :
    (limit : ℕ) (p : TaskParams) (k : Kernel)
    → (create_tx limit p k ≡ (no_space, refused no_space k))
      ⊎ (create_tx limit p k ≡ (invalid_param, refused invalid_param k))
      ⊎ Valid limit p k
unfolding create_tx
create_tx-cases limit p k = elim (Bool-cases (leb limit k.task_cnt)) [
  | inl full ↦ inl (rw (create_tx, full) refl)
  | inr room ↦ elim (Bool-cases (leb min_priority p.prio)) [
    | inl bad ↦ inr (inl (rw (create_tx, room, bad) refl))
    | inr good ↦ inr (inr (room, good))
  ]
]

-- A replay of a result whose task is in its list does nothing.
pub finish-Inserted :
    (r : Created) (k : Kernel) (rs : List Created) → Inserted k (r ∷ rs) → finish r k ≡ k
unfolding finish insert_into_readylist
finish-Inserted (handle t) k rs h = if_yes _ h.1
finish-Inserted no_space k rs h = refl
finish-Inserted invalid_param k rs h = refl

pub Inserted-rest :
    (r : Created) (k : Kernel) (rs : List Created) → Inserted k (r ∷ rs) → Inserted k rs
Inserted-rest (handle t) k rs h = h.2
Inserted-rest no_space k rs h = h
Inserted-rest invalid_param k rs h = h

pub boot-replays :
    (limit : ℕ) (ds qs : List TaskParams) (rs ts : List Created) (k : Kernel)
    → length ds ≡ length rs
    → Inserted k rs
    → boot limit (ds ++ qs) (rs ++ ts) k ≡ boot limit qs ts k
unfolding boot
boot-replays limit [] qs [] ts k same h = refl
boot-replays limit [] qs (r ∷ rs) ts k same h = absurd (omega (arith, same))
boot-replays limit (d ∷ ds) qs [] ts k same h = absurd (omega (arith, same))
boot-replays limit (d ∷ ds) qs (r ∷ rs) ts k same h =
    ap (boot limit (ds ++ qs) (rs ++ ts)) (finish-Inserted r k rs h)
    ∙ boot-replays limit ds qs rs ts k (omega (arith, same)) (Inserted-rest r k rs h)

-- The results of a transaction are behind the others, whose tasks stay in their lists.
pub create_tx-results :
    (limit : ℕ) (p : TaskParams) (k : Kernel)
    → (create_tx limit p k).1.results ≡ k.results ++ ((create_tx limit p k).0 ∷ [])
unfolding committed
create_tx-results limit p k = elim (create_tx-cases limit p k) [
  | inl full ↦ rw full refl
  | inr (inl bad) ↦ rw bad refl
  | inr (inr valid) ↦ rw (create_tx-Valid limit p k valid) refl
]

pub create_tx-Inserted :
    (limit : ℕ) (p : TaskParams) (k : Kernel) (rs : List Created)
    → Inserted k rs
    → Inserted (create_tx limit p k).1 rs
create_tx-Inserted limit p k rs h = elim (create_tx-cases limit p k) [
  | inl full ↦
      rw full (Inserted-keeps k (refused no_space k) rs (omega arith) (λ t old there. there) h)
  | inr (inl bad) ↦
      rw bad (Inserted-keeps k (refused invalid_param k) rs (omega arith) (λ t old there. there) h)
  | inr (inr valid) ↦ rw (create_tx-Valid limit p k valid) (committed-Inserted p k rs h)
]

-- The tasks of all results are in their lists.
abbrev pub AllInserted : Kernel → Type 0
AllInserted k = Inserted k k.results

abbrev InList : TaskId → Kernel → Kernel → Type 0
InList t k k' =
    ((u : TaskId) → k.in_list u ≡ true → k'.in_list u ≡ true)
    × (k'.in_list t ≡ true)
    × (k'.results ≡ k.results)
    × (k'.task_cnt ≡ k.task_cnt)

insert-InList : (t : TaskId) (k : Kernel) → InList t k (insert_into_readylist t k)
unfolding insert_into_readylist
insert-InList t k = elim (Bool-cases (k.in_list t)) [
  | inl there ↦ subst (InList t k) (sym (if_yes _ there)) (λ u h. h, there, refl, refl)
  | inr absent ↦ subst (InList t k) (sym (if_no _ absent)) (
    λ u h. elim (Bool-cases (u == t)) [ inl same ↦ rw same refl | inr other ↦ rw other h ],
    update_self k.in_list t true,
    refl,
    refl,
  )
]

-- A creation adds one result.
abbrev Grown : Kernel → Kernel → Type 0
Grown k k' = AllInserted k' × (length k'.results ≡ length k.results + 1)

refused-Grown :
    (r : Created) (k : Kernel)
    → Inserted (refused r k) (r ∷ [])
    → AllInserted k
    → Grown k (refused r k)
refused-Grown r k new h = (
  Inserted-append (refused r k) k.results (r ∷ [])
      (Inserted-keeps k (refused r k) k.results (omega arith) (λ t old there. there) h) new,
  length-append k.results (r ∷ []),
)

created-Grown :
    (p : TaskParams) (k : Kernel)
    → AllInserted k
    → Grown k (insert_into_readylist k.task_cnt (committed p k))
unfolding committed
created-Grown p k h =
    let tid = k.task_cnt in
    let k₁ = committed p k in
    let k' = insert_into_readylist tid k₁ in
    let i = insert-InList tid k₁ in
    let old =
      Inserted-keeps k₁ k' k.results (omega (arith, i.3)) (λ t before there. i.0 t there)
        (committed-Inserted p k k.results h) in
    (
      subst (Inserted k') (sym i.2)
          (Inserted-append k' k.results (handle tid ∷ []) old (omega (arith, i.3), i.1, tt)),
      ap length i.2 ∙ length-append k.results (handle tid ∷ []),
    )

pub create-Grown :
    (limit : ℕ) (p : TaskParams) (k : Kernel)
    → AllInserted k
    → AllInserted (create_task_static limit p k)
      × (length (create_task_static limit p k).results ≡ length k.results + 1)
unfolding create_task_static finish
create-Grown limit p k h = elim (create_tx-cases limit p k) [
  | inl full ↦ subst (Grown k) (sym (ap (λ r. finish r.0 r.1) full)) (refused-Grown no_space k tt h)
  | inr (inl bad) ↦
      subst (Grown k) (sym (ap (λ r. finish r.0 r.1) bad)) (refused-Grown invalid_param k tt h)
  | inr (inr valid) ↦
      subst (Grown k) (sym (ap (λ r. finish r.0 r.1) (create_tx-Valid limit p k valid)))
        (created-Grown p k h)
]
