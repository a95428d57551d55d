-- ===== src/PList/InsertFront.antt =====
-- The insertion at the front with a power failure at any write, and its recovery (src/list.rs,
-- `optimized_insert_front`, `recover_from_failed_insert_front`).
use int_os.Base.{
  usize_mod, link_eq, link_eq_comm, link_eq_refl, length, has, update, update_self, ℕ, suc, ◌+◌,
  ◌<◌, ◌≡◌, refl, sym, ◌∙◌, inl, inr, false, none, some, List, [], ◌∷◌, arith,
}
use int_os.OpLog.{ListId, Ptr, ListOpCode}
use int_os.Pm.State.{PLink, Mem, Kind}
use int_os.PSorted.Inserted.{inserted}
use int_os.PList.{
  len_set, list_set, len_more, recover_from_failed_insert_front, optimized_insert_front_impl,
  optimized_insert_front, op_logged,
}
use int_os.Dll.Links.{update?, Chain}
use int_os.Pm.Run.{Power, ◌>>◌, write, memory, stable}
use int_os.Pm.Crash.{
  Outcome, may_fail, write-Outcome, write-last, run_with_crashes, memory-ended,
  run_with_crashes-target,
}
use int_os.Dll.{IsList}
use int_os.PSorted.Search.{head_apart}
use int_os.Dll.Insert.{split_prev, split_next, insert_by, Chain-insert}
use mathlib.Core.Path.{subst}
use int_os.PList.Logged.{logged-IsList}
use int_os.PList.FrontLinks.{After, Fronting, len-After, end-After, link_front-Outcome}

module _ (l : ListId) (x : Ptr) (q : PLink) (target : Mem) (off : link_eq (some x) q ≡ false)
    (old : ℕ) where
  abbrev Going : Mem → Type 0
  Going = Fronting l x q (len_more old) target off

  -- The last two writes.
  count-Outcome :
      (s : Mem)
      → After l x q (len_more old) target off s
      → (r : Power)
      → Outcome Going target
          (may_fail r)
          ((write (len_set l (len_more old)) >> write (list_set x (some l))) r s)
  count-Outcome s a = write-Outcome (len_set l (len_more old)) _ s (inr a) (
      write-last (list_set x (some l)) _ (inr (len-After l x q (len_more old) target off _ s a))
        (end-After l x q (len_more old) target off s a))

  recover-Outcome :
      (s : Mem)
      → Going s
      → (r : Power)
      → Outcome Going target (may_fail r) (recover_from_failed_insert_front l x old r s)
  unfolding recover_from_failed_insert_front
  recover-Outcome s (inl b) r =
      rw (b.first, link_eq_comm q (some x), off)
        (link_front-Outcome l x q (len_more old) target off _ s b (λ s' _. count-Outcome s') r)
  recover-Outcome s (inr a) r = rw (a.first, link_eq_refl (some x)) (count-Outcome s a r)

front-Chain :
    (next prev : Ptr → PLink) (x : Ptr) (cur : PLink) (xs : List Ptr)
    → Chain next prev none cur xs
    → has x xs ≡ false
    → Chain (update next x cur) (update? (update prev x none) cur (some x)) none (some x) (x ∷ xs)
unfolding split_prev split_next insert_by
front-Chain next prev x cur [] c new =
    subst
      (λ q.
        Chain (update next x q) (update? (update prev x none) q (some x)) none (some x) (x ∷ []))
      (sym c) (Chain-insert next prev (λ _. false) x none none [] refl new refl refl)
front-Chain next prev x cur (y ∷ ys) c new =
    subst
      (λ q.
        Chain (update next x q) (update? (update prev x none) q (some x)) none (some x)
          (x ∷ y ∷ ys))
      (sym c.0) (Chain-insert next prev (λ _. false) x none cur (y ∷ ys) c new refl refl)

module _ (l : ListId) (x : Ptr) {xs : List Ptr} {m : Mem} (is : IsList m l xs)
    (out : m.list x ≡ none) where
  new : has x xs ≡ false
  new = sym (is.owned x) ∙ rw out refl

  off_head : link_eq (some x) (m.head l) ≡ false
  off_head =
      link_eq_comm (some x) (m.head l) ∙ head_apart m.next m.prev none (m.head l) xs x is.chain new

  abbrev after_front : Mem
  after_front = inserted l x none (m.head l) (len_more (m.len l)) m

  front-Outcome :
      (r : Power)
      → Outcome
          (Going l x (m.head l) after_front off_head (m.len l))
          after_front
          (may_fail r)
          (optimized_insert_front_impl l x r m)
  unfolding optimized_insert_front_impl
  front-Outcome =
      link_front-Outcome l x (m.head l) _ after_front off_head _ m
        (record { rest = refl; first = refl })
        λ s same a.
          subst
            (λ k.
              (r : Power)
              → Outcome (Going l x (m.head l) after_front off_head (m.len l)) after_front
                  (may_fail r)
                  ((write (len_set l (len_more k)) >> write (list_set x (some l))) r s))
            (λ i. sym same i l) (count-Outcome l x (m.head l) after_front off_head (m.len l) s a)

  front-IsList : length xs + 1 < usize_mod → IsList after_front l (x ∷ xs)
  front-IsList small = record {
    chain =
        subst (λ h. Chain after_front.next after_front.prev none h (x ∷ xs))
          (sym (update_self m.head l (some x)))
          (front-Chain m.next m.prev x (m.head l) xs is.chain new);
    count = update_self m.len l (len_more (m.len l)) ∙ omega (arith, is.count);
    cursor = is.cursor;
    owned = λ a. ground (arith, is.owned a, link_eq_refl (some l));
  }

-- The insertion of a node that is in no list at the front, with a power failure after any number of
-- the writes that follow the entry in the log, and after any numbers `ns` of writes of the recoveries
-- that follow, ends in the memory that the insertion leaves without failure. There the new node is
-- the first of the list, and the others follow.
pub insert_front-crash_safe :
    (t : Kind) (l : ListId) (x : Ptr) {xs : List Ptr} {m : Mem}
    → IsList m l xs
    → m.list x ≡ none
    → length xs + 1 < usize_mod
    → (n : ℕ) (ns : List ℕ)
    → let recover = recover_from_failed_insert_front l x (m.len l) in
      (m' : Mem) × (memory (optimized_insert_front t l x stable m) ≡ some m')
      × (run_with_crashes (optimized_insert_front t l x) recover (suc n) ns m ≡ some m')
      × IsList m' l (x ∷ xs)
unfolding optimized_insert_front run_with_crashes
insert_front-crash_safe t l x {xs} {m} is out small n ns = (
  after_front l x is' out,
  memory-ended (front-Outcome l x is' out stable) refl,
  run_with_crashes-target (recover_from_failed_insert_front l x (m.len l))
      (recover-Outcome l x (m.head l) (after_front l x is' out) (off_head l x is' out) (m.len l))
      (optimized_insert_front_impl l x) m₁ (front-Outcome l x is' out) n ns,
  front-IsList l x is' out small,
)
  where
    m₁ : Mem
    m₁ = op_logged t ListOpCode.insert_front (m.len l) m

    is' : IsList m₁ l xs
    is' = logged-IsList t ListOpCode.insert_front (m.len l) is
