-- ===== src/PSorted/Parts.antt =====
-- The insertion before a node, and its recovery (src/list.rs, `optimized_insert_sorted_impl`, case 2
-- of `recover_from_failed_insert_sorted`).
use int_os.Base.{
  link_eq, link_eq_comm, link_eq_refl, update, update_self, update_ne, ℕ, ◌≡◌, ◌∙◌, inl, inr, false,
  some,
}
use int_os.OpLog.{ListId, Ptr}
use int_os.Pm.State.{PLink, Mem}
use int_os.PSorted.Inserted.{inserted, inserted-prev, inserted-back, inserted-next}
use int_os.PSorted.Place.{Progress, Backed, insert_back-Outcome, recover_back-Outcome}
use int_os.PList.{prev_set, len_more, next_set}
use int_os.Pm.Run.{Cmd, Power, write, ◌>>◌}
use int_os.Pm.Crash.{Outcome, may_fail, write-Outcome, and_then_assoc}
use int_os.PSorted.{insert_before, recover_linked}

-- The node goes before `y`.
module _ (l : ListId) (x : Ptr) (p : PLink) (n : ℕ) (target : Mem) (y : Ptr) {Inv : Mem → Type 0}
    (apart : link_eq (some x) p ≡ false) (off : link_eq (some x) (some y) ≡ false)
    (keep : (s : Mem)
      → inserted l x p (some y) n s ≡ target
      → Progress l x p (some y) s
      → Inv s) where
  -- The node knows `y`, which knows its old predecessor.
  record Facing (s : Mem) : Type 0 where
    rest : inserted l x p (some y) n s ≡ target
    owner : s.list x ≡ some l
    on_right : s.next x ≡ some y
    back : s.prev y ≡ p

  Facing-Inv : (s : Mem) → Facing s → Inv s
  Facing-Inv s f = keep s f.rest (f.owner, f.on_right, inl f.back)

  prev-Facing : (s : Mem) → Facing s → Facing (prev_set x p s)
  prev-Facing s f = record {
    rest = inserted-prev l x p (some y) n s p ∙ f.rest;
    owner = f.owner;
    on_right = f.on_right;
    back = update_ne s.prev x y p (link_eq_comm (some y) (some x) ∙ off) ∙ f.back;
  }

  face-Backed :
      (s : Mem) → Facing s → Backed l x p n target y (prev_set y (some x) (prev_set x p s))
  face-Backed s f = record {
    rest = inserted-back l x p (some y) n _ off ∙ (prev-Facing s f).rest;
    owner = f.owner;
    on_right = f.on_right;
    back = update_self (update s.prev x p) y (some x);
    on_left = update_ne (update s.prev x p) y x (some x) off ∙ update_self s.prev x p;
  }

  -- `x` and `y` are written to know each other, and what follows.
  face-Outcome :
      {A : Type 0} (k : Cmd A) (s : Mem)
      → Facing s
      → ((r : Power) → Outcome Inv target (may_fail r) (k r (prev_set y (some x) (prev_set x p s))))
      → (r : Power)
      → Outcome Inv target
          (may_fail r)
          ((write (prev_set x p) >> (write (prev_set y (some x)) >> k)) r s)
  face-Outcome k s f rest =
      write-Outcome (prev_set x p) _ s (Facing-Inv s f)
        (write-Outcome (prev_set y (some x)) _ _ (Facing-Inv _ (prev-Facing s f)) rest)

  pub insert_before-Outcome :
      (s : Mem)
      → inserted l x p (some y) n s ≡ target
      → Inv s
      → s.list x ≡ some l
      → s.prev y ≡ p
      → n ≡ len_more (s.len l)
      → (r : Power) → Outcome Inv target (may_fail r) (insert_before l x y r s)
  insert_before-Outcome s rest inv owner back len =
      write-Outcome (next_set x (some y)) _ s inv (λ r. rw back (
        face-Outcome _ s' facing
          (insert_back-Outcome l x p n target y apart off keep _ len (face-Backed s' facing)) r))
    where
      s' : Mem
      s' = next_set x (some y) s

      facing : Facing s'
      facing = record {
        rest = inserted-next l x p (some y) n s (some y) ∙ rest;
        owner = owner;
        on_right = update_self s.next x (some y);
        back = back;
      }

  pub recover_linked-Outcome :
      (old : ℕ) (s : Mem)
      → n ≡ len_more old
      → inserted l x p (some y) n s ≡ target
      → Progress l x p (some y) s
      → (r : Power) → Outcome Inv target (may_fail r) (recover_linked l x y old r s)
  recover_linked-Outcome old s len rest (owner, on_right, inl back) r =
      rw (back, link_eq_comm p (some x), apart, and_then_assoc)
        (face-Outcome _ s facing
          (recover_back-Outcome l x p n target y apart off keep old _ len (face-Backed s facing)) r)
    where
      facing : Facing s
      facing = record { rest = rest; owner = owner; on_right = on_right; back = back }
  recover_linked-Outcome old s len rest (owner, on_right, inr (back, on_left)) r =
      rw (back, link_eq_refl (some x))
        (recover_back-Outcome l x p n target y apart off keep old s len
          (record {
            rest = rest;
            owner = owner;
            on_right = on_right;
            back = back;
            on_left = on_left;
          })
          r)
