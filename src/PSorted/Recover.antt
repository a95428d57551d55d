-- ===== src/PSorted/Recover.antt =====
-- The recovery of an insertion that the power failure stopped at any write (src/list.rs,
-- `recover_from_failed_insert_sorted`).
use int_os.Base.{
  link_eq, link_eq_refl, Bool-cases, length, has, update_self, suc, ◌≡◌, refl, sym, ap, ◌∙◌, ◌≢◌,
  ◌⊎◌, inl, inr, Bool, false, none, some, List, [], ◌∷◌, arith,
}
use int_os.Pm.Run.{Power}
use int_os.OpLog.{Ptr, ListId}
use int_os.Dll.Insert.{split_prev, split_next}
use int_os.Pm.State.{PLink, Mem}
use int_os.PSorted.Search.{
  Inserting, Ready, Begun, find_place, place-Outcome, list-Ready, len-Ready, next-Ready, head_apart,
  prev-Ready,
}
use int_os.PList.{len_more, list_set, next_set, len_set, prev_set}
use int_os.Pm.Crash.{Outcome, may_fail, write-Outcome}
use int_os.PSorted.Ends.{insert_alone-Outcome}
use int_os.PSorted.Loop.{insert_from-place, place}
use int_os.PSorted.Inserted.{inserted, inserted-next, inserted-list, inserted-prev, inserted-len}
use int_os.PSorted.{
  optimized_insert_sorted_impl, optimized_insert_sorted, recover_from_failed_insert_sorted,
}

-- The search in a list that starts with `y` finds the place among its nodes.
find_place-run :
    (l : ListId) (x y : Ptr) (ys : List Ptr) (above : Ptr → Bool) (s : Mem)
    → Ready l x (y ∷ ys) above s
    → (r : Power)
    → find_place l x r s
      ≡ place l x (split_prev above none (y ∷ ys)) (split_next above (y ∷ ys)) r s
find_place-run l x y ys above s ready r = rw (ready.chain.0) (
    insert_from-place (suc (s.len l)) l x y none ys s ready.chain.3 (omega (arith, ready.len)) r
    ∙ ap (λ a. place l x (split_prev a none (y ∷ ys)) (split_next a (y ∷ ys)) r s) ready.same)

some_place :
    (above : Ptr → Bool) (pr : PLink) (y : Ptr) (ys : List Ptr)
    → (split_prev above pr (y ∷ ys) ≢ none) ⊎ (split_next above (y ∷ ys) ≢ none)
unfolding split_prev split_next
some_place above pr y [] = elim (Bool-cases (above y)) [
  | inl up ↦ inl (rw up (λ e. cc))
  | inr low ↦ inr (rw low (λ e. cc))
]
some_place above pr y (z ∷ zs) = elim (Bool-cases (above y)) [
  | inl up ↦ rw up (some_place above (some y) z zs)
  | inr low ↦ inr (rw low (λ e. cc))
]

-- With the node marked as in the list, the search ends in `target`.
find_place-Outcome :
    (l : ListId) (x : Ptr) (xs : List Ptr) (above : Ptr → Bool) (target : Mem)
    → has x xs ≡ false
    → (s : Mem) → Inserting l x xs above (split_prev above none xs) (split_next above xs) target s
    → Ready l x xs above s
    → Begun l x s
    → (r : Power)
    → Outcome
        (Inserting l x xs above (split_prev above none xs) (split_next above xs) target)
        target
        (may_fail r)
        (find_place l x r s)
unfolding split_prev split_next
find_place-Outcome l x [] above target new s inv ready begun r = rw ready.chain (
    insert_alone-Outcome l x _ target (λ s e g. (e, inr g)) s inv.0 inv begun.0 begun.1 begun.2
      (ap len_more (sym ready.len)) r)
find_place-Outcome l x (y ∷ ys) above target new s inv ready begun r =
    rw (find_place-run l x y ys above s ready r) (
      place-Outcome l x (y ∷ ys) above _ _ target refl refl new (some_place above none y ys) s inv
        ready begun r)

module _ (l : ListId) (x : Ptr) (xs : List Ptr) (above : Ptr → Bool) (target : Mem)
    (new : has x xs ≡ false) where
  abbrev pub Going : Mem → Type 0
  Going = Inserting l x xs above (split_prev above none xs) (split_next above xs) target

  abbrev pub Rest : Mem → Type 0
  Rest s =
      inserted l x (split_prev above none xs) (split_next above xs) (len_more (length xs)) s
      ≡ target

  impl-Outcome :
      (s : Mem)
      → Going s
      → Ready l x xs above s
      → s.next x ≡ none
      → s.prev x ≡ none
      → (r : Power) → Outcome Going target (may_fail r) (optimized_insert_sorted_impl l x r s)
  unfolding optimized_insert_sorted_impl
  impl-Outcome s inv ready on_right on_left =
      write-Outcome (list_set x (some l)) _ s inv
        (find_place-Outcome l x xs above target new _ inv' ready' begun)
    where
      begun : Begun l x (list_set x (some l) s)
      begun = (update_self s.list x (some l), on_right, on_left)

      ready' : Ready l x xs above (list_set x (some l) s)
      ready' = list-Ready new s (some l) ready

      inv' : Going (list_set x (some l) s)
      inv' = (inserted-list l x _ _ _ s (some l) ∙ inv.0, inl (ready', inr begun))

  -- The insertion of a node that is in no list.
  pub insert-Outcome :
      (s : Mem)
      → Rest s
      → Ready l x xs above s
      → link_eq (s.list x) (some l) ≡ false
      → (r : Power) → Outcome Going target (may_fail r) (optimized_insert_sorted l x r s)
  unfolding optimized_insert_sorted
  insert-Outcome s rest ready out =
      write-Outcome (next_set x none) _ s (rest, inl (ready, inl out))
        (write-Outcome (prev_set x none) _ _ (rest', inl (ready', inl out))
          (impl-Outcome _ (rest'', inl (ready'', inl out)) ready'' (update_self s.next x none)
            (update_self s.prev x none)))
    where
      rest' : Rest (next_set x none s)
      rest' = inserted-next l x _ _ _ s none ∙ rest

      ready' : Ready l x xs above (next_set x none s)
      ready' = next-Ready new s none ready

      rest'' : Rest (prev_set x none (next_set x none s))
      rest'' = inserted-prev l x _ _ _ (next_set x none s) none ∙ rest'

      ready'' : Ready l x xs above (prev_set x none (next_set x none s))
      ready'' = prev-Ready new (next_set x none s) none ready'

  pub recover_out-Outcome :
      (s : Mem)
      → Rest s
      → Ready l x xs above s
      → link_eq (s.list x) (some l) ≡ false
      → (r : Power)
      → Outcome Going target (may_fail r) (recover_from_failed_insert_sorted l x (length xs) r s)
  unfolding recover_from_failed_insert_sorted optimized_insert_sorted
  recover_out-Outcome s rest ready out r = rw out (insert-Outcome s rest ready out r)

  pub recover_marked-Outcome :
      (s : Mem)
      → Rest s
      → Ready l x xs above s
      → Begun l x s
      → (r : Power)
      → Outcome Going target (may_fail r) (recover_from_failed_insert_sorted l x (length xs) r s)
  unfolding recover_from_failed_insert_sorted
  recover_marked-Outcome s rest ready begun r =
      rw
        (
          begun.0,
          begun.1,
          begun.2,
          link_eq_refl (some l),
          head_apart s.next s.prev none (s.head l) xs x ready.chain new,
        )
        (write-Outcome (len_set l (length xs)) _ s (rest, inl (ready, inr begun))
          (impl-Outcome _ (inserted-len l x _ _ _ s (length xs) ∙ rest, inl (ready', inr begun))
            ready' begun.1 begun.2)
          r)
    where
      ready' : Ready l x xs above (len_set l (length xs) s)
      ready' = len-Ready new s ready
