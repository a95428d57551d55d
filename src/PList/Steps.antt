-- ===== src/PList/Steps.antt =====
-- Rules for the parts that the operations of src/list.rs share: what each leaves, at every write.
use int_os.Base.{◌≡◌, none, some, Bool, true, false, update, link_eq, if◌then◌else◌}
use int_os.OpLog.{Ptr, ListId}
use int_os.Dll.Links.{update?}
use int_os.Pm.State.{PLink, Mem}
use int_os.Pm.Run.{Power, Cmd, ◌>>=◌, ◌>>◌, write, when}
use int_os.Pm.Crash.{may_fail, Outcome, and_then_assoc, write-Outcome}
use int_os.PList.{
  next_set, prev_set, cursor_set, head_set, next_of, cursor_past, head_past, bypass_next, bypass,
  cursor_to_head, clear_front, head_of,
}

-- The memory after each part.
abbrev pub next_passed : PLink → PLink → Mem → Mem
next_passed p q m = record m { next = update? m.next p q }

abbrev pub prev_passed : PLink → PLink → Mem → Mem
prev_passed p q m = record m { prev = update? m.prev q p }

abbrev pub cursor_passed : ListId → Ptr → PLink → Mem → Mem
cursor_passed l x q m = record m {
  cursor = if link_eq (m.cursor l) (some x) then update m.cursor l q else m.cursor;
}

abbrev pub head_passed : ListId → Ptr → PLink → Mem → Mem
head_passed l x q m = record m {
  head = if link_eq (m.head l) (some x) then update m.head l q else m.head;
}

module _ {Inv : Mem → Type 0} {target : Mem} {A : Type 0} (k : Cmd A) where
  -- `if b { w }` for one assignment `w`.
  pub when-Outcome :
      (b : Bool) (c : Cmd (Unit {0})) (f : Mem → Mem) (m : Mem)
      → Inv m
      → ((r : Power) → c r m ≡ write f r m)
      → ((r : Power) → Outcome Inv target (may_fail r) (k r (if b then f m else m)))
      → (r : Power) → Outcome Inv target (may_fail r) ((when b c >> k) r m)
  when-Outcome true c f m inv same rest r = rw (same r) (write-Outcome f k m inv rest r)
  when-Outcome false c f m inv same rest r = rest r

  pub cursor_past-Outcome :
      (l : ListId) (x : Ptr) {q : PLink} (m : Mem)
      → m.next x ≡ q
      → Inv m
      → ((r : Power) → Outcome Inv target (may_fail r) (k r (cursor_passed l x q m)))
      → (r : Power) → Outcome Inv target (may_fail r) ((cursor_past l x >> k) r m)
  cursor_past-Outcome l x {q} m e inv = go (link_eq (m.cursor l) (some x))
    where
      go :
          (b : Bool)
          → ((r : Power)
              → Outcome Inv target
                  (may_fail r)
                  (k r (record m { cursor = if b then update m.cursor l q else m.cursor })))
          → (r : Power)
          → Outcome Inv target
              (may_fail r)
              ((when b (do q' ← next_of x; write (cursor_set l q')) >> k) r m)
      go true rest r = rw e (write-Outcome (cursor_set l q) k m inv rest r)
      go false rest r = rest r

  pub head_past-Outcome :
      (l : ListId) (x : Ptr) {q : PLink} (m : Mem)
      → m.next x ≡ q
      → Inv m
      → ((r : Power) → Outcome Inv target (may_fail r) (k r (head_passed l x q m)))
      → (r : Power) → Outcome Inv target (may_fail r) ((head_past l x >> k) r m)
  head_past-Outcome l x {q} m e inv = go (link_eq (m.head l) (some x))
    where
      go :
          (b : Bool)
          → ((r : Power)
              → Outcome Inv target
                  (may_fail r)
                  (k r (record m { head = if b then update m.head l q else m.head })))
          → (r : Power)
          → Outcome Inv target
              (may_fail r)
              ((when b (do q' ← next_of x; write (head_set l q')) >> k) r m)
      go true rest r = rw e (write-Outcome (head_set l q) k m inv rest r)
      go false rest r = rest r

  pub bypass-Outcome :
      (x : Ptr) (p q : PLink) (m : Mem)
      → m.prev x ≡ p
      → m.next x ≡ q
      → link_eq (some x) p ≡ false
      → link_eq (some x) q ≡ false
      → Inv m
      → Inv (next_passed p q m)
      → ((r : Power) → Outcome Inv target (may_fail r) (k r (prev_passed p q (next_passed p q m))))
      → (r : Power) → Outcome Inv target (may_fail r) ((bypass x >> k) r m)
  bypass-Outcome x none none m ep eq np nq i j rest r = rw (ep, eq) (rest r)
  bypass-Outcome x none (some b) m ep eq np nq i j rest r =
      rw (ep, eq, ep) (write-Outcome (prev_set b none) k m i rest r)
  bypass-Outcome x (some a) none m ep eq np nq i j rest r =
      rw (ep, eq, and_then_assoc)
        (write-Outcome (next_set a none) (bypass_next x >> k) m i (λ r'. rw (np, eq) (rest r')) r)
  bypass-Outcome x (some a) (some b) m ep eq np nq i j rest r =
      rw (ep, eq, and_then_assoc)
        (write-Outcome (next_set a (some b)) (bypass_next x >> k) m i
          (λ r'. rw (np, eq, ep) (write-Outcome (prev_set b (some a)) k _ j rest r')) r)

  pub cursor_to_head-Outcome :
      (l : ListId) (x : Ptr) {q : PLink} (m : Mem)
      → m.head l ≡ q
      → Inv m
      → ((r : Power) → Outcome Inv target (may_fail r) (k r (cursor_passed l x q m)))
      → (r : Power) → Outcome Inv target (may_fail r) ((cursor_to_head l (some x) >> k) r m)
  cursor_to_head-Outcome l x {q} m e inv = go (link_eq (m.cursor l) (some x))
    where
      go :
          (b : Bool)
          → ((r : Power)
              → Outcome Inv target
                  (may_fail r)
                  (k r (record m { cursor = if b then update m.cursor l q else m.cursor })))
          → (r : Power)
          → Outcome Inv target
              (may_fail r)
              ((when b (do h ← head_of l; write (cursor_set l h)) >> k) r m)
      go true rest r = rw e (write-Outcome (cursor_set l q) k m inv rest r)
      go false rest r = rest r

  pub clear_front-Outcome :
      (l : ListId) (q : PLink) (m : Mem)
      → m.head l ≡ q
      → Inv m
      → ((r : Power) → Outcome Inv target (may_fail r) (k r (prev_passed none q m)))
      → (r : Power) → Outcome Inv target (may_fail r) ((clear_front l >> k) r m)
  clear_front-Outcome l none m e inv rest r = rw e (rest r)
  clear_front-Outcome l (some b) m e inv rest r =
      rw e (write-Outcome (prev_set b none) k m inv rest r)
