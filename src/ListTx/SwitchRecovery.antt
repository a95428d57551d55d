-- ===== src/ListTx/SwitchRecovery.antt =====
-- The recovery of the context switch, at every write (src/list.rs,
-- `recover_and_roll_forward_context_switch`).
use int_os.Base.{
  Option, none, some, ◌==◌, link_eq_comm, link_eq_refl, update_eq, update_self, ℕ, ◌≡◌, refl, sym,
  ap, ◌∙◌, inl, inr, false, some,
}
use mathlib.Core.Option
use int_os.Pm.Run.{get, Power, write, ◌>>◌, pure, Cmd, and_then, unwrap, ◌>>=◌}
use int_os.Pm.State.{PLink, Item, TaskState, Mem}
use int_os.OpLog.{TaskId, Ptr, set_micro_op_old_len, ListOpCode}
use int_os.Sched.{set_status, get_priority, get_sched_list, task_set, get_task}
use int_os.PList.{cursor_of, next_of, cursor_set}
use int_os.PRing.{cursor_item, next}
use int_os.Pm.Crash.{Outcome, may_fail, write-Outcome, write-last, and_then_assoc}
use int_os.ListTx.Boot.{recover_and_roll_forward_context_switch, item_task, finish_switch}
use int_os.ListTx.Recovery.{micro_op}
use int_os.ListTx.{micro_op_set}
use int_os.ListTx.Switch.{
  Going, to-Going, from-Going, cursor-Going, current-Going, settled-fixed, switched, with_status,
}

-- The recovery behind its first reads.
abbrev at_prio : TaskId → ℕ → Cmd (Unit {0})
at_prio prev_task prio = do
  cursor ← cursor_item (get_sched_list prio)
  at_cursor ← item_task cursor
  finish_switch prio prev_task at_cursor

abbrev with_prev : TaskId → Cmd (Unit {0})
with_prev prev_task = do prio ← get_priority prev_task; at_prio prev_task prio

-- `next` from the cursor on, and from the next node on.
abbrev pub next_to : ℕ → PLink → Cmd (Option Item)
next_to prio q = do
  write (cursor_set (get_sched_list prio) q)
  c' ← cursor_of (get_sched_list prio)
  get (λ m. Option.map m.value c')

abbrev pub next_from : ℕ → PLink → Cmd (Option Item)
next_from prio cursor = elim cursor [
  | none ↦ pure none
  | some ptr ↦ do q ← next_of ptr; next_to prio q
]

abbrev on_item : Option Item → Cmd (Unit {0})
on_item item = do
  task ← item_task item
  set_status task TaskState.running
  write (λ m. record m { current = task })

abbrev move_on : Cmd (Option Item) → Cmd (Unit {0})
move_on step = (do item ← step; on_item item) >> micro_op_set ListOpCode.invalid 0

module _ (prio : ℕ) (from to : TaskId) (c d : Ptr) (target : Mem)
    (apart : (from == to) ≡ false) where
  abbrev pub Pending : Mem → Type 0
  Pending = Going prio from to c d target apart

  -- With the statuses and the cursor set, the last two writes end the switch.
  pub finish-Outcome :
      (s : Mem)
      → Pending s
      → (s.tasks from).status ≡ TaskState.ready
      → (s.tasks to).status ≡ TaskState.running
      → s.cursor (get_sched_list prio) ≡ some d
      → (r : Power)
      → Outcome Pending target
          (may_fail r)
          ((write (λ m. record m { current = to }) >> micro_op_set ListOpCode.invalid 0) r s)
  finish-Outcome s g e e' at =
      write-Outcome (λ m. record m { current = to }) _ s g
        (write-last _ _ (current-Going prio from to c d target apart s g) (
          sym (λ i. record (switched (get_sched_list prio) from to d s) {
            tasks = settled-fixed from to apart s.tasks e e' i;
            cursor = update_eq s.cursor (get_sched_list prio) (some d) at i;
          })
          ∙ g.rest))

  -- The recovery finds the task `x` at the cursor.
  recover-run :
      (s : Mem) (x : TaskId) (y : Ptr)
      → Pending s
      → s.cursor (get_sched_list prio) ≡ some y
      → get_task (s.value y) ≡ pure x
      → (r : Power) → recover_and_roll_forward_context_switch r s ≡ finish_switch prio from x r s
  unfolding recover_and_roll_forward_context_switch micro_op cursor_item item_task
  recover-run s x y g at holds r =
      starts
      ∙ ap (λ o. and_then (unwrap o r s) with_prev) g.prev_task
      ∙ ap (λ k. at_prio from k r s) g.of_prio
      ∙ ap (λ o. and_then (item_task (Option.map s.value o) r s) (finish_switch prio from)) at
      ∙ ap (λ t. and_then (t r s) (finish_switch prio from)) holds
    where
      starts :
          recover_and_roll_forward_context_switch r s
          ≡ and_then (unwrap s.log.task_ptr r s) with_prev
      starts = rw g.logged

  pub to_apart : (to == from) ≡ false
  to_apart = link_eq_comm (some to) (some from) ∙ apart

  recover_late-Outcome :
      (s : Mem)
      → Pending s
      → s.cursor (get_sched_list prio) ≡ some d
      → (s.tasks from).status ≡ TaskState.ready
      → (r : Power)
      → Outcome Pending target (may_fail r) (recover_and_roll_forward_context_switch r s)
  unfolding finish_switch set_micro_op_old_len
  recover_late-Outcome s g at e r =
      rw (recover-run s to d g at g.holds_to r, to_apart, and_then_assoc)
        (write-Outcome (task_set to (with_status TaskState.running)) _ s g
          (finish-Outcome _ (to-Going prio from to c d target apart TaskState.running s g)
            (rw apart e) (rw (link_eq_refl (some to)) refl) at)
          r)

  moves-run :
      (s : Mem)
      → Pending s
      → s.cursor (get_sched_list prio) ≡ some c
      → (r : Power) → move_on (next (get_sched_list prio)) r s ≡ move_on (next_to prio (some d)) r s
  unfolding next
  moves-run s g at r =
      ap (λ o. move_on (next_from prio o) r s) at ∙ ap (λ q. move_on (next_to prio q) r s) g.after

  moves :
      (s : Mem)
      → Pending s
      → s.cursor (get_sched_list prio) ≡ some c
      → (s.tasks from).status ≡ TaskState.ready
      → (r : Power) → Outcome Pending target (may_fail r) (move_on (next (get_sched_list prio)) r s)
  unfolding item_task set_micro_op_old_len
  moves s g at e r =
      rw (moves-run s g at r, and_then_assoc, and_then_assoc)
        (write-Outcome (cursor_set (get_sched_list prio) (some d)) _ s g
          (λ r'.
            rw
              (
                link_eq_refl (some (get_sched_list prio)),
                g.holds_to,
                and_then_assoc,
                and_then_assoc,
              )
              (write-Outcome (task_set to (with_status TaskState.running)) _ _
                (cursor-Going prio from to c d target apart s g e)
                (finish-Outcome _
                  (to-Going prio from to c d target apart TaskState.running _
                    (cursor-Going prio from to c d target apart s g e))
                  (rw apart e) (rw (link_eq_refl (some to)) refl)
                  (update_self s.cursor (get_sched_list prio) (some d)))
                r'))
          r)

  recover_early-Outcome :
      (s : Mem)
      → Pending s
      → s.cursor (get_sched_list prio) ≡ some c
      → (r : Power)
      → Outcome Pending target (may_fail r) (recover_and_roll_forward_context_switch r s)
  unfolding finish_switch set_micro_op_old_len next
  recover_early-Outcome s g at r =
      rw (recover-run s from c g at g.holds_from r, link_eq_refl (some from), and_then_assoc)
        (write-Outcome (task_set from (with_status TaskState.ready)) _ s g
          (moves (task_set from (with_status TaskState.ready) s)
            (from-Going prio from to c d target apart s g) at (rw (link_eq_refl (some from)) refl))
          r)

  pub recover-Outcome :
      (s : Mem)
      → Pending s
      → (r : Power)
      → Outcome Pending target (may_fail r) (recover_and_roll_forward_context_switch r s)
  recover-Outcome s g r = elim g.stage [
    | inl at ↦ recover_early-Outcome s g at r
    | inr at ↦ recover_late-Outcome s g at.0 at.1 r
  ]
