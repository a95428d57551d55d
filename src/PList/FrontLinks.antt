-- ===== src/PList/FrontLinks.antt =====
-- The links of a node that is inserted at the front, at every write (src/list.rs,
-- `optimized_insert_front_impl`).
use int_os.Base.{
  link_eq, update, update-update, update_eq, update_self, update_ne, ℕ, ◌≡◌, refl, sym, ap, ◌∙◌,
  ◌⊎◌, inl, false, none, some,
}
use int_os.OpLog.{ListId, Ptr}
use int_os.Pm.State.{PLink, Mem}
use int_os.PSorted.Inserted.{
  inserted, inserted-head, inserted-len, inserted-prev, inserted-next, inserted-back,
}
use int_os.PList.{len_set, list_set, prev_set, next_set, link_front, head_set}
use int_os.Dll.Links.{update?}
use int_os.Pm.Run.{Cmd, Power, ◌>>◌}
use int_os.Pm.Crash.{Outcome, may_fail, and_then_assoc, write-Outcome}

module _ (l : ListId) (x : Ptr) (q : PLink) (n : ℕ) (target : Mem)
    (off : link_eq (some x) q ≡ false) where
  -- The head is not moved yet, or it is, with the links set.
  pub record Before (s : Mem) : Type 0 where
    pub rest : inserted l x none q n s ≡ target
    pub first : s.head l ≡ q

  pub record After (s : Mem) : Type 0 where
    pub rest : inserted l x none q n s ≡ target
    pub first : s.head l ≡ some x
    pub on_right : s.next x ≡ q
    pub on_left : s.prev x ≡ none
    pub back : update? s.prev q (some x) ≡ s.prev

  abbrev pub Fronting : Mem → Type 0
  Fronting s = Before s ⊎ After s

  pub len-After : (k : ℕ) (s : Mem) → After s → After (len_set l k s)
  len-After k s a = record {
    rest = inserted-len l x none q n s k ∙ a.rest;
    first = a.first;
    on_right = a.on_right;
    on_left = a.on_left;
    back = a.back;
  }

  pub end-After : (s : Mem) → After s → list_set x (some l) (len_set l n s) ≡ target
  end-After s a = sym kept ∙ a.rest
    where
      prevs : update? (update s.prev x none) q (some x) ≡ s.prev
      prevs = ap (λ f. update? f q (some x)) (update_eq s.prev x none a.on_left) ∙ a.back

      kept : inserted l x none q n s ≡ list_set x (some l) (len_set l n s)
      kept = λ i. record (inserted l x none q n s) {
        next = update_eq s.next x q a.on_right i;
        prev = prevs i;
        head = update_eq s.head l (some x) a.first i;
      }

  prev-Before : (s : Mem) → Before s → Before (prev_set x none s)
  prev-Before s b = record { rest = inserted-prev l x none q n s none ∙ b.rest; first = b.first }

  next-Before : (s : Mem) (v : PLink) → Before s → Before (next_set x v s)
  next-Before s v b = record { rest = inserted-next l x none q n s v ∙ b.rest; first = b.first }

  back-Before : (s : Mem) → Before s → Before (record s { prev = update? s.prev q (some x) })
  back-Before s b = record { rest = inserted-back l x none q n s off ∙ b.rest; first = b.first }

  head-After :
      (s : Mem)
      → Before s
      → s.next x ≡ q
      → s.prev x ≡ none
      → update? s.prev q (some x) ≡ s.prev
      → After (head_set l (some x) s)
  head-After s b on_right on_left back = record {
    rest = inserted-head l x none q n s ∙ b.rest;
    first = update_self s.head l (some x);
    on_right = on_right;
    on_left = on_left;
    back = back;
  }

-- The links of the node and the head, and what follows.
pub link_front-Outcome :
    {A : Type 0} (l : ListId) (x : Ptr) (q : PLink) (n : ℕ) (target : Mem)
    (off : link_eq (some x) q ≡ false) (k : Cmd A) (s : Mem)
    → Before l x q n target off s
    → ((s' : Mem)
        → s'.len ≡ s.len
        → After l x q n target off s'
        → (r : Power) → Outcome (Fronting l x q n target off) target (may_fail r) (k r s'))
    → (r : Power)
    → Outcome (Fronting l x q n target off) target (may_fail r) ((link_front l x >> k) r s)
link_front-Outcome l x none n target off k s b rest r = rw and_then_assoc (
    write-Outcome (prev_set x none) _ s (inl b)
      (λ r. rw and_then_assoc (
        write-Outcome (next_set x none) _ _ (inl b₁)
          (λ r. rw b.first (
            write-Outcome (head_set l (some x)) k _ (inl b₂)
              (rest _ refl (
                head-After l x none n target off _ b₂ (update_self s.next x none)
                  (update_self s.prev x none) refl))
              r))
          r))
      r)
  where
    b₁ : Before l x none n target off (prev_set x none s)
    b₁ = prev-Before l x none n target off s b

    b₂ : Before l x none n target off (next_set x none (prev_set x none s))
    b₂ = next-Before l x none n target off _ none b₁
link_front-Outcome l x (some y) n target off k s b rest r = rw and_then_assoc (
    write-Outcome (prev_set x none) _ s (inl b)
      (λ r. rw and_then_assoc (
        write-Outcome (next_set x none) _ s₁ (inl b₁)
          (λ r.
            rw (b.first, and_then_assoc, and_then_assoc)
              (write-Outcome (next_set x (some y)) _ s₂ (inl b₂)
                (λ r. rw and_then_assoc (
                  write-Outcome (prev_set y (some x)) _ s₃ (inl b₃)
                    (write-Outcome (head_set l (some x)) k s₄ (inl b₄) (rest _ refl after)) r))
                r))
          r))
      r)
  where
    s₁ : Mem
    s₁ = prev_set x none s

    s₂ : Mem
    s₂ = next_set x none s₁

    s₃ : Mem
    s₃ = next_set x (some y) s₂

    s₄ : Mem
    s₄ = prev_set y (some x) s₃

    b₁ : Before l x (some y) n target off s₁
    b₁ = prev-Before l x (some y) n target off s b

    b₂ : Before l x (some y) n target off s₂
    b₂ = next-Before l x (some y) n target off _ none b₁

    b₃ : Before l x (some y) n target off s₃
    b₃ = next-Before l x (some y) n target off _ (some y) b₂

    b₄ : Before l x (some y) n target off s₄
    b₄ = back-Before l x (some y) n target off _ b₃

    after : After l x (some y) n target off (head_set l (some x) s₄)
    after =
        head-After l x (some y) n target off _ b₄ (update_self s₂.next x (some y))
          (update_ne s₃.prev y x (some x) off ∙ update_self s.prev x none)
          (update-update s₃.prev y (some x) (some x))
