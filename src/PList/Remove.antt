-- ===== src/PList/Remove.antt =====
-- A removal from a list with a power failure at any write, and its recovery (src/list.rs,
-- `optimized_remove_impl`, `recover_from_failed_remove`).
use mathlib.Core.Path.{subst}
use int_os.Base.{
  usize_mod, ℕ, ◌≡◌, refl, sym, ap, ◌∙◌, inl, inr, List, none, some, true, false, arith, ◌<◌, has,
  length, update, update_self, update_eq, link_eq_refl, ◌==◌, link_eq, Bool-cases, if◌then◌else◌,
  link_eq→eq, ==→eq, suc,
}
use int_os.OpLog.{Ptr, ListId, ListOpCode}
use int_os.Dll.{IsList}
use int_os.Dll.Links.{Chain-apart, Chain-single}
use int_os.Dll.Erase.{erase, has-erase, length-erase, Chain-erase}
use int_os.Pm.State.{Mem, Kind}
use int_os.Pm.Run.{Power, memory, stable}
use int_os.Pm.Crash.{
  may_fail, Outcome, and_then_assoc, write-Outcome, write-last, run_with_crashes,
  run_with_crashes-target, memory-ended,
}
use int_os.PList.{
  len_less, list_set, len_set, cursor_set, head_set, unlink, optimized_remove_impl,
  recover_from_failed_remove, optimized_remove, op_logged,
}
use int_os.PList.Removal.{
  Between, removed, Unfinished, detach-Unfinished, passed, len-Unfinished, recover-Outcome,
}
use int_os.PList.Logged.{logged-IsList}

module _ (l : ListId) (x : Ptr) {xs : List Ptr} {m : Mem} (is : IsList m l xs)
    (at : has x xs ≡ true) where
  pub start-Between : Between x (m.prev x) (m.next x) m.prev m.next
  start-Between =
      let apart = Chain-apart m.next m.prev none (m.head l) xs x is.chain at refl in
      record { on_left = refl; on_right = refl; apart_prev = apart.0; apart_next = apart.1 }

  abbrev pub after_removal : Mem
  after_removal = removed l x (m.prev x) (m.next x) (len_less (m.len l)) m

  head-after_removal :
      after_removal.head l ≡ (if link_eq (m.head l) (some x) then m.next x else m.head l)
  head-after_removal = ground arith

  -- The list that is left when a removal ends.
  pub removed-IsList : length xs < usize_mod → IsList after_removal l (erase xs x)
  removed-IsList small = record {
    chain = rw head-after_removal (Chain-erase m.next m.prev x none (m.head l) xs is.chain at refl);
    count =
        rw (update_self m.len l (len_less (m.len l)), is.count)
          (omega (arith, length-erase xs x at));
    cursor = rw is.cursor is.cursor;
    owned =
        λ a. ground (arith, has-erase m.next m.prev none (m.head l) xs x a is.chain, is.owned a);
  }

  start-Unfinished : Unfinished l x (m.prev x) (m.next x) (len_less (m.len l)) after_removal m
  start-Unfinished = record { at = start-Between; rest = refl }

  abbrev Removing : Mem → Type 0
  Removing = Unfinished l x (m.prev x) (m.next x) (len_less (m.len l)) after_removal

  -- More than one node.
  unlink-Outcome :
      (m.len l == 1) ≡ false
      → (r : Power) → Outcome Removing after_removal (may_fail r) (unlink l x (m.len l) r m)
  unlink-Outcome many r = rw many (
      detach-Unfinished _ m start-Unfinished
        (λ v.
          write-Outcome (len_set l (len_less (m.len l))) _ _ v
            (write-last (list_set x none) _ (len-Unfinished _ _ v) refl))
        r)

  idle : cursor_set l none m ≡ m
  idle = λ i. record m { cursor = update_eq m.cursor l none is.cursor i }

  -- One node: it has no neighbours, and is the head.
  module _ (alone_prev : m.prev x ≡ none) (alone_next : m.next x ≡ none)
      (first : m.head l ≡ some x) where
    emptied : passed (update m.head l none) l x (m.next x) ≡ passed m.head l x (m.next x)
    emptied = rw (alone_next, update_self m.head l none, first, link_eq_refl (some x))

    emptied-Unfinished : Removing (head_set l none (cursor_set l none m))
    emptied-Unfinished =
        subst (λ s. Removing (head_set l none s)) (sym idle)
          (record { at = start-Between; rest = λ i. record after_removal { head = emptied i } })

    emptied-removed :
        list_set x none (len_set l (len_less (m.len l)) (head_set l none (cursor_set l none m)))
        ≡ after_removal
    emptied-removed =
        ap (λ s. list_set x none (len_set l (len_less (m.len l)) (head_set l none s))) idle
        ∙ rw (alone_prev, alone_next, is.cursor, first, link_eq_refl (some x))

    unlink_one-Outcome :
        (m.len l == 1) ≡ true
        → (r : Power) → Outcome Removing after_removal (may_fail r) (unlink l x (m.len l) r m)
    unlink_one-Outcome one r =
        rw (one, and_then_assoc)
          (write-Outcome (cursor_set l none) _ m start-Unfinished
            (λ r'.
              write-Outcome (head_set l none) _ _ (subst Removing (sym idle) start-Unfinished)
                (write-Outcome (len_set l (len_less (m.len l))) _ _ emptied-Unfinished (
                  write-last (list_set x none) _ (len-Unfinished _ _ emptied-Unfinished)
                    emptied-removed))
                r')
            r)

  alone : length xs ≡ 1 → (m.prev x ≡ none) × (m.next x ≡ none) × (m.head l ≡ some x)
  alone one = Chain-single m.next m.prev (m.head l) xs x is.chain at one

  removal-Outcome :
      (r : Power) → Outcome Removing after_removal (may_fail r) (optimized_remove_impl l x r m)
  unfolding optimized_remove_impl
  removal-Outcome r =
      rw (link_eq→eq (m.list x) (some l) (is.owned x ∙ at)) (elim (Bool-cases (m.len l == 1)) [
        | inl one ↦
            let (ep, eq, eh) = alone (sym is.count ∙ ==→eq (m.len l) 1 one) in
            unlink_one-Outcome ep eq eh one r
        | inr many ↦ unlink-Outcome many r
      ])

-- A removal of a node of a list, with a power failure after any number of the writes that follow the
-- entry in the log, and after any numbers `ns` of writes of the recoveries that follow, ends in the
-- memory that the removal leaves without failure. There the list holds its nodes less the one
-- removed, which is in no list.
pub remove-crash_safe :
    (t : Kind) (l : ListId) (x : Ptr) {xs : List Ptr} {m : Mem}
    → IsList m l xs
    → has x xs ≡ true
    → length xs < usize_mod
    → (n : ℕ) (ns : List ℕ)
    → let recover = recover_from_failed_remove l x (m.len l) in
      (m' : Mem) × (memory (optimized_remove t l x stable m) ≡ some m')
      × (run_with_crashes (optimized_remove t l x) recover (suc n) ns m ≡ some m')
      × IsList m' l (erase xs x)
      × (m'.list x ≡ none)
unfolding optimized_remove run_with_crashes
remove-crash_safe t l x {xs} {m} is at small n ns = (
  after_removal l x is' at,
  memory-ended (removal-Outcome l x is' at stable) refl,
  run_with_crashes-target (recover_from_failed_remove l x (m.len l))
      (recover-Outcome l x (m.prev x) (m.next x) (m.len l) (after_removal l x is' at))
      (optimized_remove_impl l x) m₁ (removal-Outcome l x is' at) n ns,
  removed-IsList l x is' at small,
  update_self m.list x none,
)
  where
    m₁ : Mem
    m₁ = op_logged t ListOpCode.remove (m.len l) m

    is' : IsList m₁ l xs
    is' = logged-IsList t ListOpCode.remove (m.len l) is
