-- ===== src/Dll/Insert.antt =====
-- A chain with one node more, behind the longest front whose nodes pass a test.
use int_os.Base.{
  ◌==◌, if◌then◌else◌, link_eq, Bool-cases, length, has, update, update_self, update_ne, suc, ◌≡◌,
  refl, ◌∙◌, inl, inr, Bool, true, false, ◌||◌, none, some, List, [], ◌∷◌, arith,
}
use int_os.OpLog.{Ptr}
use int_os.Pm.State.{PLink}
use int_os.Dll.Links.{update?, Chain, leads, update?_out, Chain-frame, has_apart, update?_ne}

unfoldable pub insert_by : (Ptr → Bool) → Ptr → List Ptr → List Ptr
insert_by above x [] = x ∷ []
insert_by above x (y ∷ ys) = if above y then y ∷ insert_by above x ys else x ∷ y ∷ ys

-- The neighbours of the new node.
unfoldable pub split_prev : (Ptr → Bool) → PLink → List Ptr → PLink
split_prev above pr [] = pr
split_prev above pr (y ∷ ys) =
    let rest = split_prev above (some y) ys in if above y then rest else pr

unfoldable pub split_next : (Ptr → Bool) → List Ptr → PLink
split_next above [] = none
split_next above (y ∷ ys) = if above y then split_next above ys else some y

-- The first node of the new chain.
abbrev pub first_of : (Ptr → Bool) → PLink → Ptr → List Ptr → PLink
first_of above cur x [] = some x
first_of above cur x (y ∷ ys) = if above y then cur else some x

pub split_next-leads :
    (above : Ptr → Bool) (xs : List Ptr) (a : Ptr)
    → has a xs ≡ false
    → link_eq (some a) (split_next above xs) ≡ false
unfolding split_next
split_next-leads above [] a h = refl
split_next-leads above (y ∷ ys) a h = ground (arith, split_next-leads above ys a)

pub split_prev-leads :
    (above : Ptr → Bool) (pr : PLink) (xs : List Ptr) (a : Ptr)
    → has a xs ≡ false
    → link_eq (some a) pr ≡ false
    → link_eq (some a) (split_prev above pr xs) ≡ false
unfolding split_prev
split_prev-leads above pr [] a h e = e
split_prev-leads above pr (y ∷ ys) a h e = ground (arith, split_prev-leads above (some y) ys a)

pub has-insert_by :
    (above : Ptr → Bool) (x : Ptr) (xs : List Ptr) (a : Ptr)
    → has a (insert_by above x xs) ≡ ((a == x) || has a xs)
unfolding insert_by
has-insert_by above x [] a = refl
has-insert_by above x (y ∷ ys) a = ground (arith, has-insert_by above x ys a)

pub length-insert_by :
    (above : Ptr → Bool) (x : Ptr) (xs : List Ptr) → length (insert_by above x xs) ≡ suc (length xs)
unfolding insert_by
length-insert_by above x [] = refl
length-insert_by above x (y ∷ ys) = ground (arith, length-insert_by above x ys)

module _ (next prev : Ptr → PLink) (above : Ptr → Bool) (x : Ptr) where
  abbrev pub next_with : PLink → PLink → Ptr → PLink
  next_with p q = update? (update next x q) p (some x)

  abbrev pub prev_with : PLink → PLink → Ptr → PLink
  prev_with p q = update? (update prev x p) q (some x)

  -- The nodes behind the new one keep their links.
  behind :
      (pr : PLink) (y : Ptr) (ys : List Ptr)
      → Chain next prev (some y) (next y) ys
      → has y ys ≡ false
      → has x (y ∷ ys) ≡ false
      → leads pr (y ∷ ys) ≡ false
      → Chain (next_with pr (some y)) (prev_with pr (some y)) (some y) (next_with pr (some y) y) ys
  behind pr y ys c out new apart = rw at_y (
      Chain-frame (some y) (next y) ys
        (λ a h. spared a (ground (arith, has_apart ys a x)) (ground arith))
        (λ a h. ground (arith, has_apart ys a x, has_apart ys a y)) c)
    where
      spared :
          (a : Ptr) → (a == x) ≡ false → has a (y ∷ ys) ≡ true → next_with pr (some y) a ≡ next a
      spared a ne h =
          update?_out (update next x (some y)) pr (some x) (y ∷ ys) a apart h
          ∙ update_ne next x a (some y) ne

      at_y : next_with pr (some y) y ≡ next y
      at_y = spared y (ground arith) (ground arith)

  -- The node before the rest of the chain points to the new node, if that stands first in the rest.
  at_front :
      (y : Ptr) (ys : List Ptr)
      → Chain next prev (some y) (next y) ys
      → has y ys ≡ false
      → (y == x) ≡ false
      → next_with (split_prev above (some y) ys) (split_next above ys) y
        ≡ first_of above (next y) x ys
  unfolding split_prev split_next
  at_front y [] c out ne = ground arith
  at_front y (z ∷ zs) c out ne = elim (Bool-cases (above z)) [
    | inl up ↦
        rw
          (
            up,
            update?_ne _ (split_prev above (some z) zs) (some x) y
                (split_prev-leads above (some z) zs y (ground arith) (ground arith)),
          )
          (update_ne next x y _ ne)
    | inr low ↦ rw low (update_self (update next x (some z)) y (some x))
  ]

  -- The chain with the new node.
  pub Chain-insert :
      (pr cur : PLink) (xs : List Ptr)
      → Chain next prev pr cur xs
      → has x xs ≡ false
      → link_eq (some x) pr ≡ false
      → leads pr xs ≡ false
      → let p = split_prev above pr xs in
        let q = split_next above xs in
        Chain (next_with p q) (prev_with p q) pr (first_of above cur x xs) (insert_by above x xs)
  unfolding split_prev split_next insert_by
  Chain-insert pr cur [] c new ne apart =
      (refl, update_self prev x pr, refl, update?_ne _ pr (some x) x ne ∙ update_self next x none)
  Chain-insert pr cur (y ∷ ys) c new ne apart = elim (Bool-cases (above y)) [
    | inl up ↦ rw up (
      c.0,
      update?_ne (update prev x (split_prev above (some y) ys)) (split_next above ys) (some x) y
            (split_next-leads above ys y c.2)
          ∙ update_ne prev x y (split_prev above (some y) ys) (ground arith)
          ∙ c.1,
      has-insert_by above x ys y ∙ ground arith,
      rw (at_front y ys c.3 c.2 (ground arith))
          (Chain-insert (some y) (next y) ys c.3 (ground arith) (ground arith) c.2),
    )
    | inr low ↦ rw low (
      refl,
      update_ne (update prev x pr) y x (some x) (ground arith) ∙ update_self prev x pr,
      new,
      (
        update?_ne (update next x (some y)) pr (some x) x ne ∙ update_self next x (some y),
        update_self (update prev x pr) y (some x),
        c.2,
        behind pr y ys c.3 c.2 new apart,
      ),
    )
  ]
