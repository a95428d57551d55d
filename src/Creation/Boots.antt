-- ===== src/Creation/Boots.antt =====
-- Boots that the power failure stops (src/recover.rs, `idempotent_boot`).
use mathlib.Core.Path.{subst}
use mathlib.Core.List.{append-nil}
use int_os.Base.{ℕ, ◌≡◌, ◌⊎◌, refl, sym, ap, ◌∙◌, inl, inr, List, [], ◌∷◌, ◌++◌, length, leb}
use int_os.Creation.{
  TaskParams, Kernel, Created, create_tx, committed, finish, create_task_static, boot,
  idempotent_boot, handle,
}
use int_os.Creation.Torn.{Torn, Torn-again, Torn-committed}
use int_os.Creation.Replays.{
  Inserted, Valid, Inserted-Torn, create_tx-Valid, create_tx-results, create_tx-Inserted,
  boot-replays,
}
use int_os.Creation.Stops.{
  Stops, between, in_tx, behind_tx, creates, replays, Fails, first, again, Place, at_rest, torn,
  behind, At, Point, next-At, Stops-rest, Stops-replays,
}

-- The transaction that was stopped runs again.
Torn-create_tx :
    (limit : ℕ) (q : TaskParams) (k k' : Kernel)
    → Valid limit q k
    → Torn q k k'
    → create_tx limit q k' ≡ create_tx limit q k
Torn-create_tx limit q k k' valid t =
    let (x, y, z, c, m, r, e) = t in
    let same_cnt : k'.task_cnt ≡ k.task_cnt = ap {A = Kernel} (λ k. k.task_cnt) e in
    let valid' : Valid limit q k' = (ap (leb limit) same_cnt ∙ valid.0, valid.1) in
    create_tx-Valid limit q k' valid'
    ∙ ap (λ n. (handle n, committed q k')) same_cnt
    ∙ ap (λ x. (handle k.task_cnt, x)) (Torn-committed q k k' t)
    ∙ sym (create_tx-Valid limit q k valid)

Torn-results : (q : TaskParams) (k k' : Kernel) → Torn q k k' → k'.results ≡ k.results
Torn-results q k k' (x, y, z, c, m, r, e) = ap {A = Kernel} (λ k. k.results) e

module _ (limit : ℕ) (ps : List TaskParams) (k₀ : Kernel) where
  -- What follows the results that are replayed, from each of the places.
  Stops-Torn :
      (ds : List TaskParams) (q : TaskParams) (qs : List TaskParams) (k k' k'' : Kernel)
      → At limit ps k₀ ds (q ∷ qs) k
      → Valid limit q k
      → Torn q k k'
      → Stops limit (q ∷ qs) [] k' k''
      → Point limit ps k₀ k''
  unfolding create_task_static
  Stops-Torn ds q qs k k' k'' h valid t between = (ds, q ∷ qs, k, h, torn valid t)
  Stops-Torn ds q qs k k' k'' h valid t (in_tx valid' t') =
      (ds, q ∷ qs, k, h, torn valid (Torn-again q k k' k'' t t'))
  Stops-Torn ds q qs k k' k'' h valid t behind_tx =
      let same = Torn-create_tx limit q k k' valid t in
      (ds, q ∷ qs, k, h, subst (Place limit (q ∷ qs) k) (sym (ap (λ r. r.1) same)) behind)
  Stops-Torn ds q qs k k' k'' h valid t (creates st) =
      let same = ap (λ r. finish r.0 r.1) (Torn-create_tx limit q k k' valid t) in
      Stops-rest limit ps k₀ (ds ++ (q ∷ [])) qs (create_task_static limit q k) k''
        (next-At limit ps k₀ ds q qs k h) (subst (λ x. Stops limit qs [] x k'') same st)

  Stops-behind :
      (ds : List TaskParams) (q : TaskParams) (qs : List TaskParams) (k k'' : Kernel)
      → At limit ps k₀ ds (q ∷ qs) k
      → Stops limit (q ∷ qs) ((create_tx limit q k).0 ∷ []) (create_tx limit q k).1 k''
      → Point limit ps k₀ k''
  unfolding create_task_static
  Stops-behind ds q qs k k'' h between = (ds, q ∷ qs, k, h, behind)
  Stops-behind ds q qs k k'' h (replays st) =
      Stops-rest limit ps k₀ (ds ++ (q ∷ [])) qs (create_task_static limit q k) k''
        (next-At limit ps k₀ ds q qs k h) st

  -- The results of the creations that are done come first.
  after_replays :
      (ds qs : List TaskParams) (rs : List Created) (k k' k'' : Kernel)
      → At limit ps k₀ ds qs k
      → k'.results ≡ k.results ++ rs
      → Inserted k' k.results
      → Stops limit ps k'.results k' k''
      → (k' ≡ k'') ⊎ Stops limit qs rs k' k''
  after_replays ds qs rs k k' k'' h same inserted st =
      Stops-replays limit ds qs k.results rs k' k'' h.1 inserted (
        subst (λ l. Stops limit l (k.results ++ rs) k' k'') h.0
          (subst (λ l. Stops limit ps l k' k'') same st))

  Place-Stops :
      (ds qs : List TaskParams) (k k' k'' : Kernel)
      → At limit ps k₀ ds qs k
      → Place limit qs k k'
      → Stops limit ps k'.results k' k''
      → Point limit ps k₀ k''
  Place-Stops ds qs k k' k'' h at_rest st =
      elim (after_replays ds qs [] k k k'' h (sym (append-nil k.results)) h.2 st) [
        | inl same ↦ subst (Point limit ps k₀) same (ds, qs, k, h, at_rest)
        | inr later ↦ Stops-rest limit ps k₀ ds qs k k'' h later
      ]
  Place-Stops ds (q ∷ qs) k k' k'' h (torn valid t) st =
      let results = Torn-results q k k' t ∙ sym (append-nil k.results) in
      let inserted = Inserted-Torn q k k' k.results t h.2 in
      elim (after_replays ds (q ∷ qs) [] k k' k'' h results inserted st) [
        | inl same ↦ subst (Point limit ps k₀) same (ds, q ∷ qs, k, h, torn valid t)
        | inr later ↦ Stops-Torn ds q qs k k' k'' h valid t later
      ]
  Place-Stops ds (q ∷ qs) k k' k'' h behind st =
      let results = create_tx-results limit q k in
      let inserted = create_tx-Inserted limit q k k.results h.2 in
      elim (after_replays ds (q ∷ qs) ((create_tx limit q k).0 ∷ []) k _ k'' h results inserted
        st) [
          | inl same ↦ subst (Point limit ps k₀) same (ds, q ∷ qs, k, h, behind)
          | inr later ↦ Stops-behind ds q qs k k'' h later
        ]

  -- From each place the next boot ends as if nothing had failed.
  replayed :
      (ds qs : List TaskParams) (rs : List Created) (k k' : Kernel)
      → At limit ps k₀ ds qs k
      → k'.results ≡ k.results ++ rs
      → Inserted k' k.results
      → boot limit ps k'.results k' ≡ boot limit qs rs k'
  replayed ds qs rs k k' h same inserted =
      ap (λ l. boot limit ps l k') same
      ∙ ap (λ l. boot limit l (k.results ++ rs) k') h.0
      ∙ boot-replays limit ds qs k.results rs k' h.1 inserted

  Place-boot :
      (ds qs : List TaskParams) (k k' : Kernel)
      → At limit ps k₀ ds qs k
      → Place limit qs k k'
      → boot limit ps k'.results k' ≡ boot limit ps [] k₀
  unfolding boot create_task_static
  Place-boot ds qs k k' h at_rest = replayed ds qs [] k k h (sym (append-nil k.results)) h.2 ∙ h.3
  Place-boot ds (q ∷ qs) k k' h (torn valid t) =
      let results = Torn-results q k k' t ∙ sym (append-nil k.results) in
      replayed ds (q ∷ qs) [] k k' h results (Inserted-Torn q k k' k.results t h.2)
      ∙ ap (λ r. boot limit qs [] (finish r.0 r.1)) (Torn-create_tx limit q k k' valid t)
      ∙ h.3
  Place-boot ds (q ∷ qs) k k' h behind =
      replayed ds (q ∷ qs) ((create_tx limit q k).0 ∷ []) k (create_tx limit q k).1 h
        (create_tx-results limit q k) (create_tx-Inserted limit q k k.results h.2)
      ∙ h.3

  Fails-Point : {k' : Kernel} → k₀.results ≡ [] → Fails limit ps k₀ k' → Point limit ps k₀ k'
  Fails-Point none first =
      ([], ps, k₀, (refl, ap length (sym none), subst (Inserted k₀) (sym none) tt, refl), at_rest)
  Fails-Point none (again {k'} {k''} fails st) =
      let (ds, qs, k, h, place) = Fails-Point none fails in Place-Stops ds qs k k' k'' h place st

-- The creations of the tasks of the first boot, which starts without cached results, are stopped by power
-- failures, any number of times: before, between and behind the creations and the replays of those
-- that are done, in the transaction of a creation, or between the transaction and the insertion into the
-- ready list. The boot that follows ends with the kernel of a boot without a failure: the same tasks in
-- the same lists with the same heaps, and the same current task.
pub idempotent_boot-Fails :
    {limit : ℕ} {ps : List TaskParams} {k k' : Kernel}
    → k.results ≡ []
    → Fails limit ps k k'
    → idempotent_boot limit ps k' ≡ idempotent_boot limit ps k
unfolding idempotent_boot
idempotent_boot-Fails {limit} {ps} {k} {k'} none fails =
    let (ds, qs, b, h, place) = Fails-Point limit ps k none fails in
    Place-boot limit ps k ds qs b k' h place ∙ ap (λ l. boot limit ps l k) (sym none)
