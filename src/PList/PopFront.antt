-- ===== src/PList/PopFront.antt =====
-- Taking the first node of a list with a power failure at any write, and its recovery (src/list.rs,
-- `optimized_pop_front`, `recover_from_failed_pop_front`).
use int_os.Base.{
  usize_mod, ℕ, none, ◌≡◌, some, ◌∙◌, List, ◌∷◌, ◌⊎◌, update, inl, inr, link_eq_comm, has, link_eq,
  update_self, length, true, false, link_eq_refl, ◌<◌, arith, sym, suc, refl, ap,
}
use int_os.OpLog.{ListId, Ptr, ListOpCode}
use int_os.Pm.State.{PLink, Mem, Kind}
use int_os.PList.Removal.{
  Unfinished, prev-Unfinished, cursor-Unfinished, len-Unfinished, removed, passed,
}
use int_os.Pm.Run.{Cmd, Power, ◌>>◌, memory, stable, and_then, pure, failing}
use int_os.PList.Steps.{cursor_passed, prev_passed, clear_front-Outcome, cursor_to_head-Outcome}
use int_os.Pm.Crash.{
  Outcome, may_fail, write-Outcome, ended, write-last, discard-Outcome, run_with_crashes,
  memory-ended, run_with_crashes-target, boot_after, reboot,
}
use int_os.PList.{
  clear_front, cursor_to_head, len_set, list_set, pop_head, len_less, head_set, op_logged,
  optimized_pop_front, recover_from_failed_pop_front, start_op_log,
}
use int_os.Dll.{IsList}
use int_os.PList.Remove.{after_removal, start-Between, removed-IsList}
use mathlib.Core.Path.{subst}
use int_os.PList.Logged.{logged-IsList, logged_twice}
use int_os.Dll.Erase.{erase-head}

-- The removal of the first node `x`, which has the successor `q`, once the head is moved.
record Moved (l : ListId) (x : Ptr) (q : PLink) (n : ℕ) (target m : Mem) : Type 0 where
  rest : Unfinished l x none q n target m
  moved : m.head l ≡ q

module _ {l : ListId} {x : Ptr} {q : PLink} {n : ℕ} {target : Mem} where
  prev-Moved : (m : Mem) → Moved l x q n target m → Moved l x q n target (prev_passed none q m)
  prev-Moved m v = record { rest = prev-Unfinished m v.rest; moved = v.moved }

  cursor-Moved : (m : Mem) → Moved l x q n target m → Moved l x q n target (cursor_passed l x q m)
  cursor-Moved m v = record { rest = cursor-Unfinished m v.rest; moved = v.moved }

  len-Moved : (m : Mem) (n' : ℕ) → Moved l x q n target m → Moved l x q n target (len_set l n' m)
  len-Moved m n' v = record { rest = len-Unfinished m n' v.rest; moved = v.moved }

  -- With the head moved, the last writes of a removal lead to its end.
  end-Moved :
      (m : Mem)
      → Moved l x q n target m
      → list_set x none (len_set l n (cursor_passed l x q (prev_passed none q m))) ≡ target
  end-Moved m v = rw (v.moved, link_eq_comm q (some x), v.rest.at.apart_next) refl ∙ v.rest.rest

  module _ (Inv : Mem → Type 0) (keep : (m : Mem) → Moved l x q n target m → Inv m) where
    -- The links of the new head and the cursor, and what follows.
    front-Outcome :
        {A : Type 0} (k : Cmd A) (m : Mem)
        → Moved l x q n target m
        → (let m' = cursor_passed l x q (prev_passed none q m) in
            Moved l x q n target m' → (r : Power) → Outcome Inv target (may_fail r) (k r m'))
        → (r : Power)
        → Outcome Inv target (may_fail r) ((clear_front l >> (cursor_to_head l (some x) >> k)) r m)
    front-Outcome k m v rest = clear_front-Outcome _ l q m v.moved (keep m v) (
        cursor_to_head-Outcome k l x _ v.moved (keep _ (prev-Moved m v))
          (rest (cursor-Moved _ (prev-Moved m v))))

-- Behind the log the operation is `pop_head`.
pop_front-run :
    (t : Kind) (l : ListId) (x : Ptr) (m : Mem)
    → m.head l ≡ some x
    → (r : Power)
    → optimized_pop_front t l r m
      ≡ (start_op_log t ListOpCode.pop_front (m.len l) >> pop_head l x) r m
unfolding optimized_pop_front
pop_front-run t l x m first r = rw first

-- The first node `x` of the list, before the removal.
module _ (t : Kind) (l : ListId) (x : Ptr) {xs : List Ptr} {m : Mem}
    (is : IsList m l (x ∷ xs)) where
  abbrev pub after_pop : Mem
  after_pop = removed l x none (m.next x) (len_less (m.len l)) m

  at_front : has x (x ∷ xs) ≡ true
  at_front = ground arith

  not_after : link_eq (some x) (m.next x) ≡ false
  not_after = (start-Between l x is at_front).apart_next

  head_moved : passed (update m.head l (m.next x)) l x (m.next x) ≡ passed m.head l x (m.next x)
  head_moved = rw (
    update_self m.head l (m.next x),
    link_eq_comm (m.next x) (some x),
    not_after,
    is.chain.0,
    link_eq_refl (some x),
  )

  start-Moved : Moved l x (m.next x) (len_less (m.len l)) after_pop (head_set l (m.next x) m)
  start-Moved = record {
    rest = record {
      at = record {
        on_left = is.chain.1;
        on_right = refl;
        apart_prev = refl;
        apart_next = not_after;
      };
      rest = λ i. record after_pop { head = head_moved i };
    };
    moved = update_self m.head l (m.next x);
  }

  abbrev Popping : Mem → Type 0
  Popping s = (s ≡ m) ⊎ Moved l x (m.next x) (len_less (m.len l)) after_pop s

  pop_head-Outcome : (r : Power) → Outcome Popping after_pop (may_fail r) (pop_head l x r m)
  pop_head-Outcome = write-Outcome (head_set l (m.next x)) _ m (inl refl) (
      front-Outcome Popping (λ s. inr) _ _ start-Moved
        (λ v. write-Outcome (len_set l (len_less (m.len l))) _ _ (inr v) (
          write-Outcome (list_set x none) _ _ (inr (len-Moved _ _ v))
            (λ r. ended (end-Moved _ start-Moved)))))

  -- The operation is in the log.
  module _ (logged : op_logged t ListOpCode.pop_front (m.len l) m ≡ m) where
    again-Outcome :
        (r : Power) → Outcome Popping after_pop (may_fail r) (optimized_pop_front t l r m)
    again-Outcome r = rw (pop_front-run t l x m is.chain.0 r) (
        write-Outcome (op_logged t ListOpCode.pop_front (m.len l)) _ m (inl refl)
          (λ r'.
            subst (λ s. Outcome Popping after_pop (may_fail r') (pop_head l x r' s)) (sym logged)
              (pop_head-Outcome r'))
          r)

    recover_rest-Outcome :
        (s : Mem)
        → Moved l x (m.next x) (len_less (m.len l)) after_pop s
        → (r : Power)
        → Outcome Popping after_pop (may_fail r) (recover_from_failed_pop_front t l x (m.len l) r s)
    unfolding recover_from_failed_pop_front
    recover_rest-Outcome s v r =
        rw (v.moved, link_eq_comm (m.next x) (some x), not_after)
          (front-Outcome Popping (λ s'. inr) _ s v
            (λ v'.
              write-Outcome (len_set l (len_less (m.len l))) _ _ (inr v')
                (write-last (list_set x none) _ (inr (len-Moved _ _ v')) (end-Moved s v)))
            r)

    recover-run :
        (r : Power)
        → recover_from_failed_pop_front t l x (m.len l) r m
          ≡ and_then (optimized_pop_front t l r m) (λ _. pure tt)
    unfolding recover_from_failed_pop_front
    recover-run r = rw (is.chain.0, link_eq_refl (some x))

    recover_start-Outcome :
        (r : Power)
        → Outcome Popping after_pop (may_fail r) (recover_from_failed_pop_front t l x (m.len l) r m)
    recover_start-Outcome r = rw (recover-run r) (discard-Outcome (again-Outcome r))

    recover-Outcome :
        (s : Mem)
        → Popping s
        → (r : Power)
        → Outcome Popping after_pop (may_fail r) (recover_from_failed_pop_front t l x (m.len l) r s)
    recover-Outcome s (inl e) r =
        subst
          (λ s'.
            Outcome Popping after_pop (may_fail r)
              (recover_from_failed_pop_front t l x (m.len l) r s'))
          (sym e) (recover_start-Outcome r)
    recover-Outcome s (inr v) r = recover_rest-Outcome s v r

  -- What taking the first node leaves is what its removal leaves.
  after_pop-removal : after_pop ≡ after_removal l x is at_front
  after_pop-removal = rw is.chain.1

-- Taking the first node of a list, with a power failure after any number of the writes that follow
-- the entry in the log, and after any numbers `ns` of writes of the recoveries that follow, ends in
-- the memory that it leaves without failure. There the list holds the other nodes, the node taken
-- is in no list, and the items and the tasks stay.
pub pop_front-crash_safe :
    (t : Kind) (l : ListId) {x : Ptr} {xs : List Ptr} {m : Mem}
    → IsList m l (x ∷ xs)
    → length (x ∷ xs) < usize_mod
    → (n : ℕ) (ns : List ℕ)
    → let recover = recover_from_failed_pop_front t l x (m.len l) in
      (m' : Mem) × (memory (optimized_pop_front t l stable m) ≡ some m')
      × (run_with_crashes (optimized_pop_front t l) recover (suc n) ns m ≡ some m')
      × IsList m' l xs
      × (m'.list x ≡ none)
      × (m'.value ≡ m.value)
      × (m'.tasks ≡ m.tasks)
unfolding run_with_crashes
pop_front-crash_safe t l {x} {xs} {m} is small n ns = (
  after_pop t l x is',
  ap memory (run stable) ∙ memory-ended (pop_head-Outcome t l x is' stable) refl,
  ap (boot_after (reboot recover ns)) (run (failing (suc n)))
      ∙ (run_with_crashes-target (recover_from_failed_pop_front t l x (m.len l))
          (recover-Outcome t l x is' logged) (pop_head l x) m₁ (pop_head-Outcome t l x is') n ns),
  subst (λ s. IsList s l xs) (sym (after_pop-removal t l x is'))
      (subst (IsList (after_removal l x is' (at_front t l x is')) l) (erase-head x xs)
        (removed-IsList l x is' (at_front t l x is') small)),
  update_self m.list x none,
  refl,
  refl,
)
  where
    recover : Cmd (Unit {0})
    recover = recover_from_failed_pop_front t l x (m.len l)

    run :
        (r : Power)
        → optimized_pop_front t l r m
          ≡ (start_op_log t ListOpCode.pop_front (m.len l) >> pop_head l x) r m
    run = pop_front-run t l x m is.chain.0

    m₁ : Mem
    m₁ = op_logged t ListOpCode.pop_front (m.len l) m

    is' : IsList m₁ l (x ∷ xs)
    is' = logged-IsList t ListOpCode.pop_front (m.len l) is

    logged : op_logged t ListOpCode.pop_front (m.len l) m₁ ≡ m₁
    logged = logged_twice t ListOpCode.pop_front (m.len l) m
