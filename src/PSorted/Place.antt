-- ===== src/PSorted/Place.antt =====
-- The writes that link a node in at its place, and the recovery of each part of them (src/list.rs,
-- `optimized_insert_sorted_impl`, `recover_from_failed_insert_sorted`).
use int_os.Base.{link_eq, update, update_eq, ℕ, ◌≡◌, sym, ap, ◌∙◌, ◌⊎◌, inr, false, none, some}
use int_os.OpLog.{ListId, Ptr}
use int_os.Pm.State.{PLink, Mem}
use int_os.Dll.Links.{update?, update?_ne}
use int_os.PSorted.Inserted.{inserted, headed, inserted-forth, inserted-head}
use int_os.PList.{len_set, list_set, len_more, head_set, len_up, next_set}
use int_os.Pm.Run.{Cmd, Power, ◌>>◌, write}
use int_os.Pm.Crash.{Outcome, may_fail, write-Outcome, write-last}
use int_os.PSorted.{link_prev}
use mathlib.Core.Path.{subst}

-- What is written of the node `x`, which belongs between `p` and `q`, once its first link is set.
abbrev pub Progress : ListId → Ptr → PLink → PLink → Mem → Type 0
Progress l x p (some y) s =
    (s.list x ≡ some l)
    × (s.next x ≡ some y)
    × ((s.prev y ≡ p) ⊎ ((s.prev y ≡ some x) × (s.prev x ≡ p)))
Progress l x (some z) none s = (s.list x ≡ some l) × (s.next x ≡ none) × (s.prev x ≡ some z)
Progress l x none none s =
    (s.list x ≡ some l) × (s.next x ≡ none) × (s.prev x ≡ none) × (s.head l ≡ some x)

-- The memory after `link_prev`.
abbrev before_linked : ListId → Ptr → PLink → Mem → Mem
before_linked l x p s = record s { next = update? s.next p (some x); head = headed p s.head l x }

-- Both neighbours are known to `x`, and `y` knows `x`.
pub record Backed (l : ListId) (x : Ptr) (p : PLink) (n : ℕ) (target : Mem) (y : Ptr) (s : Mem)
    : Type 0 where
  pub rest : inserted l x p (some y) n s ≡ target
  pub owner : s.list x ≡ some l
  pub on_right : s.next x ≡ some y
  pub back : s.prev y ≡ some x
  pub on_left : s.prev x ≡ p

module _ (l : ListId) (x : Ptr) (p : PLink) (n : ℕ) (target : Mem) (y : Ptr) {Inv : Mem → Type 0}
    (apart : link_eq (some x) p ≡ false) (off : link_eq (some x) (some y) ≡ false)
    (keep : (s : Mem)
      → inserted l x p (some y) n s ≡ target
      → Progress l x p (some y) s
      → Inv s) where
  abbrev Linking : Mem → Type 0
  Linking = Backed l x p n target y

  Backed-Inv : (s : Mem) → Linking s → Inv s
  Backed-Inv s b = keep s b.rest (b.owner, b.on_right, inr (b.back, b.on_left))

  linked-Backed : (s : Mem) → Linking s → Linking (before_linked l x p s)
  linked-Backed s b = record {
    rest =
        inserted-forth l x p (some y) n (record s { head = headed p s.head l x }) apart
        ∙ inserted-head l x p (some y) n s
        ∙ b.rest;
    owner = b.owner;
    on_right = update?_ne s.next p (some x) x apart ∙ b.on_right;
    back = b.back;
    on_left = b.on_left;
  }

  -- With the length and the owner written, the node is inserted.
  linked-end :
      (s : Mem) → Linking s → len_set l n (list_set x (some l) (before_linked l x p s)) ≡ target
  linked-end s b = sym kept ∙ b.rest
    where
      back : update (update s.prev x p) y (some x) ≡ s.prev
      back =
          ap (λ f. update f y (some x)) (update_eq s.prev x p b.on_left)
          ∙ update_eq s.prev y (some x) b.back

      kept : inserted l x p (some y) n s ≡ len_set l n (list_set x (some l) (before_linked l x p s))
      kept = λ i. record (inserted l x p (some y) n s) {
        next = update? (update_eq s.next x (some y) b.on_right i) p (some x);
        prev = back i;
      }

  owned : (s : Mem) → Linking s → list_set x (some l) s ≡ s
  owned s b = λ i. record s { list = update_eq s.list x (some l) b.owner i }

  set_owner-Linking : (s : Mem) → Linking s → Linking (list_set x (some l) s)
  set_owner-Linking s b = subst Linking (sym (owned s b)) b

  -- The link from the predecessor, or from the list, and what follows.
  link_prev-Outcome :
      {A : Type 0} (k : Cmd A) (s : Mem)
      → Linking s
      → (Linking (before_linked l x p s)
          → (r : Power) → Outcome Inv target (may_fail r) (k r (before_linked l x p s)))
      → (r : Power) → Outcome Inv target (may_fail r) ((link_prev l x >> k) r s)
  link_prev-Outcome k s b rest r = go p b.on_left (rest (linked-Backed s b))
    where
      go :
          (p' : PLink)
          → s.prev x ≡ p'
          → ((r : Power) → Outcome Inv target (may_fail r) (k r (before_linked l x p' s)))
          → Outcome Inv target (may_fail r) ((link_prev l x >> k) r s)
      go none e next = rw e (write-Outcome (head_set l (some x)) k s (Backed-Inv s b) next r)
      go (some z) e next = rw e (write-Outcome (next_set z (some x)) k s (Backed-Inv s b) next r)

  -- What the recovery does behind the links.
  pub recover_back-Outcome :
      (old : ℕ) (s : Mem)
      → n ≡ len_more old
      → Linking s
      → (r : Power)
      → Outcome Inv target
          (may_fail r)
          ((link_prev l x >> (write (list_set x (some l)) >> write (len_set l (len_more old)))) r s)
  recover_back-Outcome old s e b = link_prev-Outcome _ s b (λ b'.
      write-Outcome (list_set x (some l)) _ _ (Backed-Inv _ b') (
        write-last (len_set l (len_more old)) _ (Backed-Inv _ (set_owner-Linking _ b')) (
          ap (λ k. len_set l k (list_set x (some l) (before_linked l x p s))) (sym e)
          ∙ linked-end s b)))

  -- What the insertion does behind the links.
  pub insert_back-Outcome :
      (s : Mem)
      → n ≡ len_more (s.len l)
      → Linking s
      → (r : Power) → Outcome Inv target (may_fail r) ((link_prev l x >> len_up l) r s)
  insert_back-Outcome s e b = link_prev-Outcome _ s b (λ b'.
      write-last (len_set l (len_more (s.len l))) _ (Backed-Inv _ b') (
        ap (λ k. len_set l k (before_linked l x p s)) (sym e)
        ∙ ap (λ t. len_set l n t) (sym (owned _ b'))
        ∙ linked-end s b))
