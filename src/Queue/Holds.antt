-- ===== src/Queue/Holds.antt =====
-- The items that a queue holds, in their order (src/queue.rs).
use int_os.Base.{
  usize_mod, ℕ, suc, ◌+◌, ◌*◌, ◌≤◌, ◌<◌, ◌≡◌, ap, ◌∙◌, List, [], ◌∷◌, ◌++◌, arith, length, sym,
}
use int_os.Journal.{Bytes}
use int_os.Queue.{Queue}
use int_os.Queue.Slots.{wrap}

-- The slots from the index `i` on hold the items of `xs`.
abbrev pub Filled : ℕ → ℕ → Bytes → ℕ → List Bytes → Type 0
Filled n len buffer i [] = Unit {0}
Filled n len buffer i (x ∷ xs) =
    ((b : ℕ) → b < n → buffer (wrap len i * n + b) ≡ x b) × Filled n len buffer (suc i) xs

-- A queue that was made with room for items holds `xs`.
pub record IsQueue (q : Queue) (xs : List Bytes) : Type 0 where
  pub slot : ℕ
  pub in_ring : slot < q.length
  pub sized : 0 < q.item_size
  pub small : q.item_size * q.length < usize_mod
  pub end_of : q.tail ≡ q.item_size * q.length
  pub reads : q.read_pos ≡ slot * q.item_size
  pub count : q.items_enqueued ≡ length xs
  pub bound : length xs ≤ q.length
  pub writes : q.write_pos ≡ wrap q.length (slot + length xs) * q.item_size
  pub filled : Filled q.item_size q.length q.buffer slot xs

-- The bytes of the slots decide.
pub Filled-frame :
    (n len : ℕ) (buffer buffer' : Bytes) (i : ℕ) (xs : List Bytes)
    → ((j b : ℕ)
        → i ≤ j
        → j < i + length xs
        → b < n
        → buffer' (wrap len j * n + b) ≡ buffer (wrap len j * n + b))
    → Filled n len buffer i xs
    → Filled n len buffer' i xs
Filled-frame n len buffer buffer' i [] same f = tt
Filled-frame n len buffer buffer' i (x ∷ xs) same f = (
  λ b lt. same i b (omega arith) (omega arith) lt ∙ f.0 b lt,
  Filled-frame n len buffer buffer' (suc i) xs
      (λ j b lo hi lt. same j b (omega arith) (omega arith) lt) f.1,
)

-- Only the slots of the indexes matter.
pub Filled-same :
    (n len : ℕ) (buffer : Bytes) (i i' : ℕ) (xs : List Bytes)
    → ((j : ℕ) → j < length xs → wrap len (i + j) ≡ wrap len (i' + j))
    → Filled n len buffer i xs
    → Filled n len buffer i' xs
Filled-same n len buffer i i' [] same f = tt
Filled-same n len buffer i i' (x ∷ xs) same f = (
  λ b lt.
      ap (λ s. buffer (s * n + b)) (start i' i (λ k. wrap len k) (sym (same 0 (omega arith))))
      ∙ f.0 b lt,
  Filled-same n len buffer (suc i) (suc i') xs
      (λ j lt.
        ap (wrap len) (omega arith) ∙ same (suc j) (omega arith) ∙ ap (wrap len) (omega arith))
      f.1,
)
  where
    start : (i' i : ℕ) (g : ℕ → ℕ) → g (i' + 0) ≡ g (i + 0) → g i' ≡ g i
    start i' i g e = ap g (omega arith) ∙ e ∙ ap g (omega arith)

pub Filled-append :
    (n len : ℕ) (buffer : Bytes) (i : ℕ) (xs : List Bytes) (x : Bytes)
    → Filled n len buffer i xs
    → ((b : ℕ) → b < n → buffer (wrap len (i + length xs) * n + b) ≡ x b)
    → Filled n len buffer i (xs ++ (x ∷ []))
Filled-append n len buffer i [] x f last =
    (λ b lt. ap (λ s. buffer (wrap len s * n + b)) (omega arith) ∙ last b lt, tt)
Filled-append n len buffer i (y ∷ ys) x f last = (
  f.0,
  Filled-append n len buffer (suc i) ys x f.1
      (λ b lt. ap (λ s. buffer (wrap len s * n + b)) (omega arith) ∙ last b lt),
)
