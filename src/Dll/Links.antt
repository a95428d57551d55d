-- ===== src/Dll/Links.antt =====
-- Chains of distinct nodes, with links in both directions.
use int_os.Base.{
  ◌≡◌, refl, ◌==◌, ◌∙◌, ◌⊎◌, Bool, true, false, none, some, List, [], ◌∷◌, arith, inl, inr,
  Bool-cases, ==→eq, link_eq, length, has, update,
}
use int_os.OpLog.{Ptr}
use int_os.Pm.State.{PLink}

-- Whether a link leads into a list of addresses.
abbrev pub leads : PLink → List Ptr → Bool
leads none xs = false
leads (some a) xs = has a xs

-- Members differ from what is no member.
pub has_apart : (xs : List Ptr) (a b : Ptr) → has a xs ≡ true → has b xs ≡ false → (a == b) ≡ false
has_apart [] a b h k = cc
has_apart (x ∷ xs) a b h k = ground (arith, has_apart xs a b)

pub leads_tail :
    (p : PLink) (x : Ptr) (xs : List Ptr) → leads p (x ∷ xs) ≡ false → leads p xs ≡ false
leads_tail none x xs h = refl
leads_tail (some a) x xs h = ground arith

pub leads_apart :
    (x : Ptr) (p : PLink) (xs : List Ptr)
    → has x xs ≡ true
    → leads p xs ≡ false
    → link_eq (some x) p ≡ false
leads_apart x none xs h out = refl
leads_apart x (some a) xs h out = has_apart xs x a h out

-- A map changed at an address that may be absent.
abbrev pub update? : (Ptr → PLink) → PLink → PLink → Ptr → PLink
update? f none v = f
update? f (some a) v = update f a v

pub update?_ne :
    (f : Ptr → PLink) (p v : PLink) (x : Ptr) → link_eq (some x) p ≡ false → update? f p v x ≡ f x
update?_ne f none v x ne = refl
update?_ne f (some a) v x ne = rw ne

-- A link that does not lead into `xs` spares the nodes of `xs`.
pub update?_out :
    (f : Ptr → PLink) (p v : PLink) (xs : List Ptr) (a : Ptr)
    → leads p xs ≡ false
    → has a xs ≡ true
    → update? f p v a ≡ f a
update?_out f none v xs a out h = refl
update?_out f (some b) v xs a out h = ground (arith, has_apart xs a b)

-- From `cur` the `next` links lead through the distinct nodes `xs` to the end; the `prev` links lead
-- back, from the first to `pr`.
abbrev pub Chain : (Ptr → PLink) → (Ptr → PLink) → PLink → PLink → List Ptr → Type 0
Chain next prev pr cur [] = cur ≡ none
Chain next prev pr cur (x ∷ xs) =
    (cur ≡ some x) × (prev x ≡ pr) × (has x xs ≡ false) × Chain next prev (some x) (next x) xs

-- The links of the nodes decide the chain.
module _ {next prev : Ptr → PLink} where
  pub Chain-frame :
      {next' prev' : Ptr → PLink} (pr cur : PLink) (xs : List Ptr)
      → ((a : Ptr) → has a xs ≡ true → next' a ≡ next a)
      → ((a : Ptr) → has a xs ≡ true → prev' a ≡ prev a)
      → Chain next prev pr cur xs
      → Chain next' prev' pr cur xs
  Chain-frame pr cur [] sn sp c = c
  Chain-frame {next'} {prev'} pr cur (x ∷ xs) sn sp c =
      let en : next' x ≡ next x = sn x (ground arith) in
      (
        c.0,
        sp x (ground arith) ∙ c.1,
        c.2,
        rw en (
            Chain-frame (some x) (next x) xs (λ a h. sn a (ground arith))
              (λ a h. sp a (ground arith)) c.3),
      )

module _ (next prev : Ptr → PLink) where
  -- The successor of a node is another node, or there is none.
  pub next-leads :
      (pr cur : PLink) (xs : List Ptr) (x : Ptr)
      → Chain next prev pr cur xs
      → has x xs ≡ true
      → (next x ≡ none) ⊎ (leads (next x) xs ≡ true)
  next-leads pr cur [] x c h = cc
  next-leads pr cur (y ∷ []) x c h = ground arith
  next-leads pr cur (y ∷ z ∷ zs) x c h = ground (arith, next-leads (some y) (next y) (z ∷ zs) x c.3)

  -- The predecessor of a node is another node, or `pr`.
  pub prev-leads :
      (pr cur : PLink) (xs : List Ptr) (x : Ptr)
      → Chain next prev pr cur xs
      → has x xs ≡ true
      → ((cur ≡ some x) × (prev x ≡ pr)) ⊎ (leads (prev x) xs ≡ true)
  prev-leads pr cur [] x c h = cc
  prev-leads pr cur (y ∷ ys) x c h = ground (arith, prev-leads (some y) (next y) ys x c.3)

  front_apart :
      (y : Ptr) (ys : List Ptr)
      → Chain next prev (some y) (next y) ys
      → has y ys ≡ false
      → link_eq (some y) (next y) ≡ false
  front_apart y [] c out = rw c
  front_apart y (z ∷ zs) c out = rw c.0 (ground arith)

  -- A node is not its own neighbour.
  pub Chain-apart :
      (pr cur : PLink) (xs : List Ptr) (x : Ptr)
      → Chain next prev pr cur xs
      → has x xs ≡ true
      → leads pr xs ≡ false
      → (link_eq (some x) (prev x) ≡ false) × (link_eq (some x) (next x) ≡ false)
  Chain-apart pr cur [] x c h out = cc
  Chain-apart pr cur (y ∷ ys) x c h out = elim (Bool-cases (x == y)) [
    | inl hit ↦
        let e = ==→eq x y hit in
        rw (e, c.1) (leads_apart y pr (y ∷ ys) (ground arith) out, front_apart y ys c.3 c.2)
    | inr miss ↦ Chain-apart (some y) (next y) ys x c.3 (ground arith) c.2
  ]

  -- The only node has no neighbours.
  pub Chain-single :
      (cur : PLink) (xs : List Ptr) (x : Ptr)
      → Chain next prev none cur xs
      → has x xs ≡ true
      → length xs ≡ 1
      → (prev x ≡ none) × (next x ≡ none) × (cur ≡ some x)
  Chain-single cur [] x c h one = cc
  Chain-single cur (y ∷ []) x c h one = ground arith
  Chain-single cur (y ∷ z ∷ zs) x c h one = absurd (omega arith)
