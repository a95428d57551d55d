-- ===== src/Dll/Erase.antt =====
-- A chain less one of its nodes.
use mathlib.Core.Path.{subst}
use int_os.Base.{
  ◌≡◌, refl, ap, sym, ◌∙◌, inl, inr, true, false, some, List, [], ◌∷◌, arith, ◌&&◌, not, suc,
  length, has, ◌==◌, ==→eq, Bool-cases, link_eq, if◌then◌else◌,
}
use int_os.OpLog.{Ptr}
use int_os.Pm.State.{PLink}
use int_os.Dll.Links.{
  leads, Chain, has_apart, update?_out, leads_tail, Chain-frame, next-leads, prev-leads, update?,
}

unfoldable pub erase : List Ptr → Ptr → List Ptr
erase [] x = []
erase (y ∷ ys) x = if y == x then ys else y ∷ erase ys x

pub has-erase_ne : (xs : List Ptr) (x a : Ptr) → has a xs ≡ false → has a (erase xs x) ≡ false
unfolding erase
has-erase_ne [] x a h = refl
has-erase_ne (y ∷ ys) x a h = ground (arith, has-erase_ne ys x a)

module _ (next prev : Ptr → PLink) (x : Ptr) where
  -- The node before the rest of the chain points past `x` if it stood before `x`.
  next-passed :
      (y : Ptr) (ys : List Ptr)
      → Chain next prev (some y) (next y) ys
      → has x ys ≡ true
      → has y ys ≡ false
      → update? next (prev x) (next x) y ≡ (if link_eq (next y) (some x) then next x else next y)
  next-passed y [] c h out = cc
  next-passed y (z ∷ zs) c h out =
      ground (arith, prev-leads next prev (some y) (next y) (z ∷ zs) x c h)

  -- The node `x` at the front.
  Chain-front :
      (pr : PLink) (ys : List Ptr)
      → Chain next prev (some x) (next x) ys
      → prev x ≡ pr
      → leads pr ys ≡ false
      → Chain (update? next pr (next x)) (update? prev (next x) pr) pr (next x) ys
  Chain-front pr [] c e out = c
  Chain-front pr (z ∷ zs) c e out = (
    c.0,
    rw c.0 (ground arith),
    c.2,
    rw (update?_out next pr (next x) (z ∷ zs) z out (ground arith)) (
        Chain-frame (some z) (next z) zs
          (λ a h. update?_out next pr (next x) (z ∷ zs) a out (ground arith))
          (λ a h. rw c.0 (ground (arith, has_apart zs a z))) c.3),
  )

  -- Passing `x` by erases it from the chain.
  pub Chain-erase :
      (pr cur : PLink) (xs : List Ptr)
      → Chain next prev pr cur xs
      → has x xs ≡ true
      → leads pr xs ≡ false
      → Chain
          (update? next (prev x) (next x))
          (update? prev (next x) (prev x))
          pr
          (if link_eq cur (some x) then next x else cur)
          (erase xs x)
  unfolding erase
  Chain-erase pr cur [] c h out = cc
  Chain-erase pr cur (y ∷ ys) c h out = elim (Bool-cases (y == x)) [
    | inl hit ↦
        let e = ==→eq y x hit in
        let before : prev x ≡ pr = ap prev (sym e) ∙ c.1 in
        rw (c.0, hit, before)
          (Chain-front pr ys (subst (λ a. Chain next prev (some a) (next a) ys) e c.3) before
            (leads_tail pr y ys out))
    | inr miss ↦
        let inside : has x ys ≡ true = ground arith in
        rw (c.0, miss)
          (
            refl,
            ground (arith, next-leads next prev (some y) (next y) ys x c.3 inside),
            has-erase_ne ys x y c.2,
            rw (next-passed y ys c.3 inside c.2) (Chain-erase (some y) (next y) ys c.3 inside c.2),
          )
  ]

-- The addresses of a chain are distinct, so one is erased with all its occurrences.
pub has-erase :
    (next prev : Ptr → PLink) (pr cur : PLink) (xs : List Ptr) (x a : Ptr)
    → Chain next prev pr cur xs
    → has a (erase xs x) ≡ (not (a == x) && has a xs)
unfolding erase
has-erase next prev pr cur [] x a c = ground arith
has-erase next prev pr cur (y ∷ ys) x a c =
    ground (arith, has-erase next prev (some y) (next y) ys x a c.3)

pub length-erase :
    (xs : List Ptr) (x : Ptr) → has x xs ≡ true → suc (length (erase xs x)) ≡ length xs
unfolding erase
length-erase [] x h = cc
length-erase (y ∷ ys) x h = ground (arith, length-erase ys x)

pub erase-head : (x : Ptr) (xs : List Ptr) → erase (x ∷ xs) x ≡ xs
unfolding erase
erase-head x xs = ground arith
