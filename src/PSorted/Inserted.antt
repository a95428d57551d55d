-- ===== src/PSorted/Inserted.antt =====
-- What an insertion between two nodes leaves, and that its parts may be done again (src/list.rs,
-- `optimized_insert_sorted_impl`).
use int_os.Base.{link_eq, update, update-update, ℕ, ◌≡◌, refl, fun_ext, false, none, some, arith}
use int_os.Pm.State.{PLink, Mem, PListLink}
use int_os.OpLog.{ListId, Ptr}
use int_os.Dll.Links.{update?}
use int_os.PList.{next_set, prev_set, len_set, list_set}

-- The head of the list, where `x` has no predecessor.
abbrev pub headed : PLink → (ListId → PLink) → ListId → Ptr → ListId → PLink
headed none h l x = update h l (some x)
headed (some z) h l x = h

-- The memory after the insertion of `x` between `p` and `q` into the list `l`.
abbrev pub inserted : ListId → Ptr → PLink → PLink → ℕ → Mem → Mem
inserted l x p q n m = record m {
  next = update? (update m.next x q) p (some x);
  prev = update? (update m.prev x p) q (some x);
  list = update m.list x (some l);
  len = update m.len l n;
  head = headed p m.head l x;
}

headed-twice :
    (p : PLink) (h : ListId → PLink) (l : ListId) (x : Ptr)
    → headed p (headed p h l x) l x ≡ headed p h l x
headed-twice none h l x = update-update h l (some x) (some x)
headed-twice (some z) h l x = refl

-- A write at `p` may be done early.
update?-early :
    (f : Ptr → PLink) (x : Ptr) (v p w : PLink)
    → link_eq (some x) p ≡ false
    → update? (update (update? f p w) x v) p w ≡ update? (update f x v) p w
update?-early f x v none w ne = refl
update?-early f x v (some a) w ne = fun_ext λ b. ground arith

module _ (l : ListId) (x : Ptr) (p q : PLink) (n : ℕ) (m : Mem) where
  pub inserted-next : (v : PLink) → inserted l x p q n (next_set x v m) ≡ inserted l x p q n m
  inserted-next v = λ i. record (inserted l x p q n m) {
    next = update? (update-update m.next x v q i) p (some x);
  }

  pub inserted-prev : (v : PLink) → inserted l x p q n (prev_set x v m) ≡ inserted l x p q n m
  inserted-prev v = λ i. record (inserted l x p q n m) {
    prev = update? (update-update m.prev x v p i) q (some x);
  }

  pub inserted-list : (v : PListLink) → inserted l x p q n (list_set x v m) ≡ inserted l x p q n m
  inserted-list v =
      λ i. record (inserted l x p q n m) { list = update-update m.list x v (some l) i }

  pub inserted-len : (v : ℕ) → inserted l x p q n (len_set l v m) ≡ inserted l x p q n m
  inserted-len v = λ i. record (inserted l x p q n m) { len = update-update m.len l v n i }

  pub inserted-back :
      link_eq (some x) q ≡ false
      → inserted l x p q n (record m { prev = update? m.prev q (some x) }) ≡ inserted l x p q n m
  inserted-back ne =
      λ i. record (inserted l x p q n m) { prev = update?-early m.prev x p q (some x) ne i }

  pub inserted-forth :
      link_eq (some x) p ≡ false
      → inserted l x p q n (record m { next = update? m.next p (some x) }) ≡ inserted l x p q n m
  inserted-forth ne =
      λ i. record (inserted l x p q n m) { next = update?-early m.next x q p (some x) ne i }

  pub inserted-head :
      inserted l x p q n (record m { head = headed p m.head l x }) ≡ inserted l x p q n m
  inserted-head = λ i. record (inserted l x p q n m) { head = headed-twice p m.head l x i }
