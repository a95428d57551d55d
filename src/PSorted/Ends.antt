-- ===== src/PSorted/Ends.antt =====
-- The insertion at the end of a list or into an empty one, and the recovery of each (src/list.rs,
-- `optimized_insert_sorted_impl`, cases 3 and 4 of `recover_from_failed_insert_sorted`).
use int_os.Base.{
  link_eq, link_eq_refl, update_eq, update_self, update_ne, ℕ, ◌≡◌, sym, ap, ◌∙◌, false, none, some,
}
use int_os.OpLog.{ListId, Ptr}
use int_os.Pm.State.{Mem}
use int_os.PSorted.Inserted.{inserted, inserted-next, inserted-forth, inserted-prev, inserted-head}
use int_os.PSorted.Place.{Progress}
use int_os.PList.{next_set, len_more, len_set, head_set, prev_set, list_set, len_up}
use int_os.Pm.Run.{Cmd, Power, write, ◌>>◌}
use int_os.Pm.Crash.{Outcome, may_fail, write-Outcome, write-last}
use int_os.PSorted.{insert_after, recover_tail, recover_unlinked}
use mathlib.Core.Path.{subst}

-- The node goes to the end, behind `z`.
module _ (l : ListId) (x : Ptr) (n : ℕ) (target : Mem) (z : Ptr) {Inv : Mem → Type 0}
    (apart : link_eq (some x) (some z) ≡ false)
    (keep : (s : Mem)
      → inserted l x (some z) none n s ≡ target
      → Progress l x (some z) none s
      → Inv s) where
  record Behind (s : Mem) : Type 0 where
    rest : inserted l x (some z) none n s ≡ target
    owner : s.list x ≡ some l
    on_right : s.next x ≡ none
    on_left : s.prev x ≡ some z

  Behind-Inv : (s : Mem) → Behind s → Inv s
  Behind-Inv s b = keep s b.rest (b.owner, b.on_right, b.on_left)

  next-Behind : (s : Mem) → Behind s → Behind (next_set x none s)
  next-Behind s b = record {
    rest = inserted-next l x (some z) none n s none ∙ b.rest;
    owner = b.owner;
    on_right = update_self s.next x none;
    on_left = b.on_left;
  }

  link-Behind : (s : Mem) → Behind s → Behind (next_set z (some x) s)
  link-Behind s b = record {
    rest = inserted-forth l x (some z) none n s apart ∙ b.rest;
    owner = b.owner;
    on_right = update_ne s.next z x (some x) apart ∙ b.on_right;
    on_left = b.on_left;
  }

  -- The last two links, and what follows.
  tail-Outcome :
      {A : Type 0} (k : Cmd A) (s : Mem)
      → Behind s
      → (let s' = next_set z (some x) (next_set x none s) in
          Behind s' → (r : Power) → Outcome Inv target (may_fail r) (k r s'))
      → (r : Power)
      → Outcome Inv target
          (may_fail r)
          ((write (next_set x none) >> (write (next_set z (some x)) >> k)) r s)
  tail-Outcome k s b rest = write-Outcome (next_set x none) _ s (Behind-Inv s b) (
      write-Outcome (next_set z (some x)) _ _ (Behind-Inv _ (next-Behind s b))
        (rest (link-Behind _ (next-Behind s b))))

  pub insert_after-Outcome :
      (s : Mem)
      → inserted l x (some z) none n s ≡ target
      → Inv s
      → s.list x ≡ some l
      → s.next x ≡ none
      → n ≡ len_more (s.len l)
      → (r : Power) → Outcome Inv target (may_fail r) (insert_after l x z r s)
  insert_after-Outcome s rest inv owner on_right len = write-Outcome (prev_set x (some z)) _ s inv (
      tail-Outcome _ s' start (λ b. write-last (len_set l (len_more (s.len l))) _ (Behind-Inv _ b) (
        ap (λ k. len_set l k (next_set z (some x) (next_set x none s'))) (sym len)
        ∙ (λ i. record (inserted l x (some z) none n s) {
          list = sym (update_eq s.list x (some l) owner) i;
        })
        ∙ rest)))
    where
      s' : Mem
      s' = prev_set x (some z) s

      start : Behind s'
      start = record {
        rest = inserted-prev l x (some z) none n s (some z) ∙ rest;
        owner = owner;
        on_right = on_right;
        on_left = update_self s.prev x (some z);
      }

  pub recover_tail-Outcome :
      (old : ℕ) (s : Mem)
      → n ≡ len_more old
      → inserted l x (some z) none n s ≡ target
      → Progress l x (some z) none s
      → (r : Power) → Outcome Inv target (may_fail r) (recover_tail l x z old r s)
  recover_tail-Outcome old s len rest (owner, on_right, on_left) = tail-Outcome _ s start (λ b.
      write-Outcome (list_set x (some l)) _ _ (Behind-Inv _ b) (
        write-last (len_set l (len_more old)) _
          (subst Inv
            (λ i. record (next_set z (some x) (next_set x none s)) {
              list = sym (update_eq s.list x (some l) owner) i;
            })
            (Behind-Inv _ b))
          (ap (λ k. len_set l k (list_set x (some l) (next_set z (some x) (next_set x none s))))
              (sym len)
            ∙ (λ i. record (inserted l x (some z) none n s) {
              prev = sym (update_eq s.prev x (some z) on_left) i;
            })
            ∙ rest)))
    where
      start : Behind s
      start = record { rest = rest; owner = owner; on_right = on_right; on_left = on_left }

-- The node is the first of the list.
module _ (l : ListId) (x : Ptr) (n : ℕ) (target : Mem) {Inv : Mem → Type 0}
    (keep : (s : Mem)
      → inserted l x none none n s ≡ target
      → Progress l x none none s
      → Inv s) where
  alone-end :
      (s : Mem)
      → inserted l x none none n s ≡ target
      → s.list x ≡ some l
      → s.next x ≡ none
      → s.prev x ≡ none
      → len_set l n (head_set l (some x) s) ≡ target
  alone-end s rest owner on_right on_left = sym kept ∙ rest
    where
      kept : inserted l x none none n s ≡ len_set l n (head_set l (some x) s)
      kept = λ i. record (inserted l x none none n s) {
        next = update_eq s.next x none on_right i;
        prev = update_eq s.prev x none on_left i;
        list = update_eq s.list x (some l) owner i;
      }

  pub insert_alone-Outcome :
      (s : Mem)
      → inserted l x none none n s ≡ target
      → Inv s
      → s.list x ≡ some l
      → s.next x ≡ none
      → s.prev x ≡ none
      → n ≡ len_more (s.len l)
      → (r : Power)
      → Outcome Inv target (may_fail r) ((write (head_set l (some x)) >> len_up l) r s)
  insert_alone-Outcome s rest inv owner on_right on_left len =
      write-Outcome (head_set l (some x)) _ s inv (
        write-last (len_set l (len_more (s.len l))) _
          (keep _ (inserted-head l x none none n s ∙ rest)
            (owner, on_right, on_left, update_self s.head l (some x)))
          (ap (λ k. len_set l k (head_set l (some x) s)) (sym len)
            ∙ alone-end s rest owner on_right on_left))

  pub recover_alone-Outcome :
      (old : ℕ) (s : Mem)
      → n ≡ len_more old
      → inserted l x none none n s ≡ target
      → Progress l x none none s
      → (r : Power) → Outcome Inv target (may_fail r) (recover_unlinked l x old r s)
  recover_alone-Outcome old s len rest (owner, on_right, on_left, first) r =
      rw (first, link_eq_refl (some x))
        (write-last (len_set l (len_more old)) s (keep s rest (owner, on_right, on_left, first))
          (ap (λ k. len_set l k s) (sym len)
            ∙ (λ i. len_set l n (record s { head = sym (update_eq s.head l (some x) first) i }))
            ∙ alone-end s rest owner on_right on_left)
          r)
