-- ===== src/PSorted/Search.antt =====
-- The insertion from the start, and the recovery of each memory that it may leave (src/list.rs,
-- `optimized_insert_sorted_impl`, `recover_from_failed_insert_sorted`).
use int_os.Base.{
  link_eq, length, has, update_self, update_ne, suc, ◌≡◌, refl, sym, ap, ◌∙◌, ◌≢◌, ◌⊎◌, inl, inr,
  Bool, false, none, some, List, [], ◌∷◌, arith,
}
use int_os.Dll.Insert.{split_prev, split_next, split_prev-leads, split_next-leads}
use int_os.OpLog.{Ptr, ListId}
use int_os.Pm.State.{PLink, Mem, PListLink}
use int_os.Pm.Run.{write, Cmd, Power, ◌>>=◌, ◌>>◌, write}
use int_os.Dll.Links.{Chain, Chain-frame, has_apart}
use int_os.PSorted.Inserted.{inserted}
use int_os.PList.{
  head_of, len_of, head_set, len_up, next_set, prev_set, len_set, len_more, list_set, head_of,
}
use int_os.PSorted.Loop.{passes, place}
use int_os.Pm.Crash.{Outcome, may_fail}
use int_os.PSorted.Place.{Progress}
use int_os.PSorted.Parts.{insert_before-Outcome}
use mathlib.Core.Path.{subst}
use int_os.PSorted.Ends.{insert_after-Outcome}
use int_os.PSorted.{insert_from}

-- The node behind the new one points back to the one before it.
neighbour :
    (above : Ptr → Bool) (next prev : Ptr → PLink) (pr cur : PLink) (xs : List Ptr) (y : Ptr)
    → Chain next prev pr cur xs
    → split_next above xs ≡ some y
    → prev y ≡ split_prev above pr xs
unfolding split_prev split_next
neighbour above next prev pr cur [] y c e = cc
neighbour above next prev pr cur (z ∷ zs) y c e =
    ground (arith, neighbour above next prev (some z) (next z) zs y c.3)

pub head_apart :
    (next prev : Ptr → PLink) (pr cur : PLink) (xs : List Ptr) (x : Ptr)
    → Chain next prev pr cur xs
    → has x xs ≡ false
    → link_eq cur (some x) ≡ false
head_apart next prev pr cur [] x c new = rw c
head_apart next prev pr cur (y ∷ ys) x c new = rw c.0 (ground arith)

-- The part of `optimized_insert_sorted_impl` behind its first write.
abbrev pub find_place : ListId → Ptr → Cmd (Unit {0})
find_place self link = do
  head ← head_of self
  fuel ← len_of self
  elim head [
    | none ↦ (do write (head_set self (some link)); len_up self)
    | some ptr ↦ insert_from (suc fuel) self link ptr
  ]

-- The list is as it was before, and `above` tells which nodes the new one goes behind.
pub record Ready (l : ListId) (x : Ptr) (xs : List Ptr) (above : Ptr → Bool) (s : Mem)
    : Type 0 where
  pub chain : Chain s.next s.prev none (s.head l) xs
  pub len : s.len l ≡ length xs
  pub same : passes s x ≡ above

-- The new node says that it is in the list.
abbrev pub Begun : ListId → Ptr → Mem → Type 0
Begun l x s = (s.list x ≡ some l) × (s.next x ≡ none) × (s.prev x ≡ none)

module _ (l : ListId) (x : Ptr) (xs : List Ptr) (above : Ptr → Bool) (p q : PLink)
    (target : Mem) where
  -- What an insertion under way leaves.
  abbrev pub Inserting : Mem → Type 0
  Inserting s =
      (inserted l x p q (len_more (length xs)) s ≡ target)
      × ((Ready l x xs above s × ((link_eq (s.list x) (some l) ≡ false) ⊎ Begun l x s))
          ⊎ Progress l x p q s)

module _ {l : ListId} {x : Ptr} {xs : List Ptr} {above : Ptr → Bool} (new : has x xs ≡ false) where
  pub next-Ready :
      (s : Mem) (v : PLink) → Ready l x xs above s → Ready l x xs above (next_set x v s)
  next-Ready s v b = record {
    chain =
        Chain-frame none (s.head l) xs (λ a h. update_ne s.next x a v (has_apart xs a x h new))
          (λ a h. refl) b.chain;
    len = b.len;
    same = b.same;
  }

  pub prev-Ready :
      (s : Mem) (v : PLink) → Ready l x xs above s → Ready l x xs above (prev_set x v s)
  prev-Ready s v b = record {
    chain =
        Chain-frame none (s.head l) xs (λ a h. refl)
          (λ a h. update_ne s.prev x a v (has_apart xs a x h new)) b.chain;
    len = b.len;
    same = b.same;
  }

  pub list-Ready :
      (s : Mem) (v : PListLink) → Ready l x xs above s → Ready l x xs above (list_set x v s)
  list-Ready s v b = record { chain = b.chain; len = b.len; same = b.same }

  pub len-Ready : (s : Mem) → Ready l x xs above s → Ready l x xs above (len_set l (length xs) s)
  len-Ready s b = record { chain = b.chain; len = update_self s.len l (length xs); same = b.same }

-- The links are set at the place that was found.
pub place-Outcome :
    (l : ListId) (x : Ptr) (xs : List Ptr) (above : Ptr → Bool) (p q : PLink) (target : Mem)
    → (split_prev above none xs ≡ p)
    → (split_next above xs ≡ q)
    → has x xs ≡ false
    → (p ≢ none) ⊎ (q ≢ none)
    → (s : Mem) → Inserting l x xs above p q target s
    → Ready l x xs above s
    → Begun l x s
    → (r : Power)
    → Outcome (Inserting l x xs above p q target) target (may_fail r) (place l x p q r s)
place-Outcome l x xs above p (some y) target ep eq new some_place s inv ready begun r =
    insert_before-Outcome l x p _ target y
      (subst (λ o. link_eq (some x) o ≡ false) ep (split_prev-leads above none xs x new refl))
      (subst (λ o. link_eq (some x) o ≡ false) eq (split_next-leads above xs x new))
      (λ s e g. (e, inr g)) s inv.0 inv begun.0
      (neighbour above s.next s.prev none (s.head l) xs y ready.chain eq ∙ ep)
      (ap len_more (sym ready.len)) r
place-Outcome l x xs above (some z) none target ep eq new some_place s inv ready begun r =
    insert_after-Outcome l x _ target z
      (subst (λ o. link_eq (some x) o ≡ false) ep (split_prev-leads above none xs x new refl))
      (λ s e g. (e, inr g)) s inv.0 inv begun.0 begun.1 (ap len_more (sym ready.len)) r
place-Outcome l x xs above none none target ep eq new some_place s inv ready begun r =
    absurd (elim some_place [ inl a ↦ a refl | inr a ↦ a refl ])
