-- ===== src/PRing/Crashed.antt =====
-- A power failure right behind the log entry of an operation on a circular list (src/list.rs,
-- `CircularPList<T>`, which the ready tasks of a priority are in).
use int_os.Base.{
  ◌==◌, if◌then◌else◌, link_eq, link_eq_refl, Bool-cases, update, update_self, ℕ, suc, ◌≡◌, refl,
  ap, ◌∙◌, inl, inr, false, none, some, [], arith,
}
use int_os.Pm.State.{Mem, Kind}
use int_os.OpLog.{ListId, Ptr, ListOpCode}
use int_os.PList.{
  list_set, recover_from_failed_remove, optimized_remove_impl, len_set, head_set, cursor_set,
  prev_set, next_set, optimized_remove, len_more, op_logged,
}
use int_os.PRing.{
  recover_from_failed_insert_before_cursor, optimized_insert_before_cursor_impl,
  optimized_insert_before_cursor,
}
use int_os.Pm.Run.{memory, stable, failing, crashed}
use int_os.Pm.Crash.{run_with_crashes, reboot, boot_after}

-- A circular list with one node.
pub record IsAlone (m : Mem) (l : ListId) (x : Ptr) : Type 0 where
  pub next : m.next x ≡ some x
  pub prev : m.prev x ≡ some x
  pub list : m.list x ≡ some l
  pub len : m.len l ≡ 1
  pub cursor : m.cursor l ≡ some x
  pub head : m.head l ≡ some x

module _ (l : ListId) (x : Ptr) (m : Mem) (is : IsAlone m l x) where
  -- The recovery moves the links of the node and of the list past the node, which is the node itself.
  abbrev recovered : Mem
  recovered = list_set x none (
      len_set l 0
        (head_set l (some x) (cursor_set l (some x) (prev_set x (some x) (next_set x (some x) m)))))

  -- The power fails before the first write.
  stops : optimized_remove_impl l x (failing 0) m ≡ crashed m
  unfolding optimized_remove_impl
  stops = rw (is.list, is.len)

  recover-run : memory (recover_from_failed_remove l x 1 stable m) ≡ some recovered
  unfolding recover_from_failed_remove
  recover-run =
      rw
        (
          is.prev,
          is.next,
          link_eq_refl (some x),
          is.prev,
          is.cursor,
          link_eq_refl (some x),
          is.head,
          link_eq_refl (some x),
          link_eq_refl (some x),
        )
        refl

  remove-run :
      memory (optimized_remove_impl l x stable m)
      ≡ some (list_set x none (len_set l 0 (head_set l none (cursor_set l none m))))
  unfolding optimized_remove_impl
  remove-run = rw (is.list, is.len, is.len) refl

-- A removal of the only node leaves a circular list without head and cursor. With a power failure
-- right behind the log entry, the recovery leaves the removed node as head and cursor of the list,
-- whose length is 0, and the node says that it is in no list.
pub remove_alone-recovery :
    (t : Kind) (l : ListId) (x : Ptr) (m : Mem)
    → IsAlone m l x
    → ((m' : Mem) × (memory (optimized_remove t l x stable m) ≡ some m')
        × (m'.head l ≡ none)
        × (m'.cursor l ≡ none))
      × ((m' : Mem) × (run_with_crashes
              (optimized_remove t l x)
              (recover_from_failed_remove l x 1)
              1
              []
              m
            ≡ some m')
          × (m'.head l ≡ some x)
          × (m'.cursor l ≡ some x)
          × (m'.len l ≡ 0)
          × (m'.list x ≡ none))
unfolding optimized_remove run_with_crashes reboot
remove_alone-recovery t l x m is = (
  (_, remove-run l x m₁ is', update_self m.head l none, update_self m.cursor l none),
  (
    recovered l x m₁ is',
    crash,
    update_self m.head l (some x),
    update_self m.cursor l (some x),
    update_self m.len l 0,
    update_self m.list x none,
  ),
)
  where
    m₁ : Mem
    m₁ = op_logged t ListOpCode.remove (m.len l) m

    is' : IsAlone m₁ l x
    is' = record {
      next = is.next;
      prev = is.prev;
      list = is.list;
      len = is.len;
      cursor = is.cursor;
      head = is.head;
    }

    crash :
        boot_after
          (reboot (recover_from_failed_remove l x 1) [])
          (optimized_remove_impl l x (failing 0) m₁)
        ≡ some (recovered l x m₁ is')
    crash =
        ap (boot_after (reboot (recover_from_failed_remove l x 1) [])) (stops l x m₁ is')
        ∙ recover-run l x m₁ is'

module _ (l : ListId) (x c z : Ptr) (k : ℕ) (m : Mem) (cur : m.cursor l ≡ some c)
    (last : m.prev c ≡ some z) (new : (z == x) ≡ false) where
  abbrev linked : Mem
  linked = prev_set c (some x) (next_set z (some x) (next_set x (some c) (prev_set x (some z) m)))

  abbrev inserted_bare : Mem
  inserted_bare =
      len_set l (len_more (suc k))
        (if link_eq (some c) (m.head l) then head_set l (some x) linked else linked)

  insert-run :
      memory (recover_from_failed_insert_before_cursor l x (suc k) stable m) ≡ some inserted_bare
  unfolding recover_from_failed_insert_before_cursor
  insert-run =
      rw (at_some, cur, last, new, last, cur, link_eq_refl (some x), cur)
        (elim (Bool-cases (link_eq (some c) (m.head l))) [
          | inl hit ↦ rw hit refl
          | inr miss ↦ rw miss refl
        ])
    where
      at_some : (suc k == 0) ≡ false
      at_some = ground arith

  kept : inserted_bare.list ≡ m.list
  kept = elim (Bool-cases (link_eq (some c) (m.head l))) [
    | inl hit ↦ rw hit refl
    | inr miss ↦ rw miss refl
  ]

  counted : inserted_bare.len l ≡ len_more (suc k)
  counted =
      update_self (if link_eq (some c) (m.head l) then head_set l (some x) linked else linked).len l
        (len_more (suc k))

  linked_in : inserted_bare.next z ≡ some x
  linked_in = elim (Bool-cases (link_eq (some c) (m.head l))) [
    | inl hit ↦ rw hit (update_self (update m.next x (some c)) z (some x))
    | inr miss ↦ rw miss (update_self (update m.next x (some c)) z (some x))
  ]

insert_stops :
    (l : ListId) (x : Ptr) (s : Mem)
    → s.list x ≡ none
    → optimized_insert_before_cursor_impl l x (failing 0) s ≡ crashed s
unfolding optimized_insert_before_cursor_impl
insert_stops l x s e = rw e

-- A removal of a node that is in no list does nothing.
remove_idle :
    (l : ListId) (x : Ptr) (s : Mem)
    → s.list x ≡ none
    → memory (optimized_remove_impl l x stable s) ≡ some s
unfolding optimized_remove_impl
remove_idle l x s e = rw e

-- An insertion before the cursor `c` of a node `x` that is in no list, with a power failure right
-- behind the log entry: the recovery links the node in behind the last node `z` and counts it, but
-- the node still says that it is in no list, and a removal of it does nothing.
pub insert_before_cursor-recovery :
    (t : Kind) (l : ListId) (x c z : Ptr) (k : ℕ) (m : Mem)
    → m.cursor l ≡ some c
    → m.prev c ≡ some z
    → m.list x ≡ none
    → m.len l ≡ suc k
    → (z == x) ≡ false
    → (m' : Mem) × (run_with_crashes
          (optimized_insert_before_cursor t l x)
          (recover_from_failed_insert_before_cursor l x (m.len l))
          1
          []
          m
        ≡ some m')
      × (m'.next z ≡ some x)
      × (m'.len l ≡ len_more (suc k))
      × (m'.list x ≡ none)
      × (memory (optimized_remove_impl l x stable m') ≡ some m')
unfolding optimized_insert_before_cursor run_with_crashes reboot
insert_before_cursor-recovery t l x c z k m cur last out len new = (
  m',
  crash,
  linked_in l x c z k m₁ cur last new,
  counted l x c z k m₁ cur last new,
  unowned,
  remove_idle l x m' unowned,
)
  where
    m₁ : Mem
    m₁ = op_logged t ListOpCode.insert_before_cursor (m.len l) m

    m' : Mem
    m' = inserted_bare l x c z k m₁ cur last new

    unowned : m'.list x ≡ none
    unowned = (λ i. kept l x c z k m₁ cur last new i x) ∙ out

    crash :
        boot_after
          (reboot (recover_from_failed_insert_before_cursor l x (m.len l)) [])
          (optimized_insert_before_cursor_impl l x (failing 0) m₁)
        ≡ some m'
    crash =
        ap (boot_after (reboot (recover_from_failed_insert_before_cursor l x (m.len l)) []))
          (insert_stops l x m₁ out)
        ∙ ap (λ n. memory (recover_from_failed_insert_before_cursor l x n stable m₁)) len
        ∙ insert-run l x c z k m₁ cur last new
