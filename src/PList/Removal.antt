-- ===== src/PList/Removal.antt =====
-- What a removal from a list leaves, and what it leaves when the power fails before its end
-- (src/list.rs, `optimized_remove_impl`, `recover_from_failed_remove`).
use int_os.Base.{
  ℕ, ◌≡◌, refl, ◌∙◌, inl, inr, none, some, false, update, update-update, update_self, link_eq_comm,
  link_eq, Bool-cases, if◌then◌else◌,
}
use int_os.OpLog.{Ptr, ListId}
use int_os.Dll.Links.{update?, update?_ne}
use int_os.Pm.State.{PLink, Mem}
use int_os.Pm.Run.{Power, Cmd, ◌>>◌}
use int_os.Pm.Crash.{may_fail, Outcome, and_then_assoc, write-Outcome, write-last}
use int_os.PList.{len_less, list_set, len_set, recover_from_failed_remove, detach}
use int_os.PList.Steps.{
  next_passed, prev_passed, cursor_passed, head_passed, bypass-Outcome, cursor_past-Outcome,
  head_past-Outcome,
}

-- The memory after `x`, which stands between `p` and `q`, is passed by.
abbrev pub detached : ListId → Ptr → PLink → PLink → Mem → Mem
detached l x p q m = head_passed l x q (cursor_passed l x q (prev_passed p q (next_passed p q m)))

-- The memory after the removal of `x`, which stands between `p` and `q`, from `l`.
abbrev pub removed : ListId → Ptr → PLink → PLink → ℕ → Mem → Mem
removed l x p q n m = list_set x none (len_set l n (detached l x p q m))

update?-twice : (f : Ptr → PLink) (p v : PLink) → update? (update? f p v) p v ≡ update? f p v
update?-twice f none v = refl
update?-twice f (some a) v = update-update f a v v

-- A link field of the list that is moved past `x`.
abbrev pub passed : (ListId → PLink) → ListId → Ptr → PLink → ListId → PLink
passed c l x q = if link_eq (c l) (some x) then update c l q else c

passed-twice :
    (c : ListId → PLink) (l : ListId) (x : Ptr) (q : PLink)
    → link_eq (some x) q ≡ false
    → passed (passed c l x q) l x q ≡ passed c l x q
passed-twice c l x q ne = elim (Bool-cases (link_eq (c l) (some x))) [
  | inl hit ↦ rw (hit, update_self c l q, link_eq_comm q (some x), ne)
  | inr miss ↦ rw (miss, miss)
]

module _ (l : ListId) (x : Ptr) (p q : PLink) (n : ℕ) (m : Mem) where
  removed-next : removed l x p q n (next_passed p q m) ≡ removed l x p q n m
  removed-next = λ i. record (removed l x p q n m) { next = update?-twice m.next p q i }

  removed-prev : removed l x p q n (prev_passed p q m) ≡ removed l x p q n m
  removed-prev = λ i. record (removed l x p q n m) { prev = update?-twice m.prev q p i }

  removed-cursor :
      link_eq (some x) q ≡ false → removed l x p q n (cursor_passed l x q m) ≡ removed l x p q n m
  removed-cursor ne =
      λ i. record (removed l x p q n m) { cursor = passed-twice m.cursor l x q ne i }

  removed-head :
      link_eq (some x) q ≡ false → removed l x p q n (head_passed l x q m) ≡ removed l x p q n m
  removed-head ne = λ i. record (removed l x p q n m) { head = passed-twice m.head l x q ne i }

  removed-len : (n' : ℕ) → removed l x p q n (len_set l n' m) ≡ removed l x p q n m
  removed-len n' = λ i. record (removed l x p q n m) { len = update-update m.len l n' n i }

  removed-list : removed l x p q n (list_set x none m) ≡ removed l x p q n m
  removed-list = λ i. record (removed l x p q n m) { list = update-update m.list x none none i }

-- Where `x` stands, away from its neighbours.
pub record Between (x : Ptr) (p q : PLink) (prev next : Ptr → PLink) : Type 0 where
  pub on_left : prev x ≡ p
  pub on_right : next x ≡ q
  pub apart_prev : link_eq (some x) p ≡ false
  pub apart_next : link_eq (some x) q ≡ false

-- What a removal of `x` that is under way leaves: the rest of the removal gives `target`.
pub record Unfinished (l : ListId) (x : Ptr) (p q : PLink) (n : ℕ) (target m : Mem) : Type 0 where
  pub at : Between x p q m.prev m.next
  pub rest : removed l x p q n m ≡ target

module _ {l : ListId} {x : Ptr} {p q : PLink} {n : ℕ} {target : Mem} where
  next-Unfinished :
      (m : Mem) → Unfinished l x p q n target m → Unfinished l x p q n target (next_passed p q m)
  next-Unfinished m u = record {
    at = record {
      on_left = u.at.on_left;
      on_right = update?_ne m.next p q x u.at.apart_prev ∙ u.at.on_right;
      apart_prev = u.at.apart_prev;
      apart_next = u.at.apart_next;
    };
    rest = removed-next l x p q n m ∙ u.rest;
  }

  pub prev-Unfinished :
      (m : Mem) → Unfinished l x p q n target m → Unfinished l x p q n target (prev_passed p q m)
  prev-Unfinished m u = record {
    at = record {
      on_left = update?_ne m.prev q p x u.at.apart_next ∙ u.at.on_left;
      on_right = u.at.on_right;
      apart_prev = u.at.apart_prev;
      apart_next = u.at.apart_next;
    };
    rest = removed-prev l x p q n m ∙ u.rest;
  }

  pub cursor-Unfinished :
      (m : Mem)
      → Unfinished l x p q n target m
      → Unfinished l x p q n target (cursor_passed l x q m)
  cursor-Unfinished m u = record {
    at = u.at;
    rest = removed-cursor l x p q n m u.at.apart_next ∙ u.rest;
  }

  head-Unfinished :
      (m : Mem) → Unfinished l x p q n target m → Unfinished l x p q n target (head_passed l x q m)
  head-Unfinished m u = record {
    at = u.at;
    rest = removed-head l x p q n m u.at.apart_next ∙ u.rest;
  }

  pub len-Unfinished :
      (m : Mem) (n' : ℕ)
      → Unfinished l x p q n target m
      → Unfinished l x p q n target (len_set l n' m)
  len-Unfinished m n' u = record { at = u.at; rest = removed-len l x p q n m n' ∙ u.rest }

  pub list-Unfinished :
      (m : Mem) → Unfinished l x p q n target m → Unfinished l x p q n target (list_set x none m)
  list-Unfinished m u = record { at = u.at; rest = removed-list l x p q n m ∙ u.rest }

  -- The neighbours and the links of the list are moved past `x`; the rest of the removal follows.
  pub detach-Unfinished :
      (k : Cmd (Unit {0})) (m : Mem)
      → Unfinished l x p q n target m
      → (Unfinished l x p q n target (detached l x p q m)
          → (r : Power)
          → Outcome (Unfinished l x p q n target) target (may_fail r) (k r (detached l x p q m)))
      → (r : Power)
      → Outcome (Unfinished l x p q n target) target (may_fail r) ((detach l x >> k) r m)
  detach-Unfinished k m u rest r = rw and_then_assoc (
      bypass-Outcome _ x p q m u.at.on_left u.at.on_right u.at.apart_prev u.at.apart_next u
        (next-Unfinished m u)
        (λ r'. rw and_then_assoc (
          cursor_past-Outcome _ l x _ passed_by.at.on_right passed_by
            (head_past-Outcome k l x _ moved.at.on_right moved (rest (head-Unfinished _ moved)))
            r'))
        r)
    where
      passed_by : Unfinished l x p q n target (prev_passed p q (next_passed p q m))
      passed_by = prev-Unfinished _ (next-Unfinished m u)

      moved :
          Unfinished l x p q n target (cursor_passed l x q (prev_passed p q (next_passed p q m)))
      moved = cursor-Unfinished _ passed_by

module _ (l : ListId) (x : Ptr) (p q : PLink) (old_len : ℕ) (target : Mem) where
  abbrev pub Going : Mem → Type 0
  Going = Unfinished l x p q (len_less old_len) target

  pub recover-Outcome :
      (m : Mem)
      → Unfinished l x p q (len_less old_len) target m
      → (r : Power) → Outcome Going target (may_fail r) (recover_from_failed_remove l x old_len r m)
  unfolding recover_from_failed_remove
  recover-Outcome m u = detach-Unfinished _ m u λ v.
      write-Outcome (len_set l (len_less old_len)) _ _ v
        (write-last (list_set x none) _ (len-Unfinished _ _ v) u.rest)
