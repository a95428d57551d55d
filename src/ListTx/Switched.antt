-- ===== src/ListTx/Switched.antt =====
-- The context switch, at every write (src/list.rs, `atomic_roll_foward_context_switch`).
use int_os.Base.{
  Option, some, ◌==◌, link_eq_refl, update_self, ℕ, ◌≡◌, refl, sym, ap, ◌∙◌, inl, false, some, List,
  suc, arith,
}
use int_os.Pm.Run.{Power, write, ◌>>◌, pure, Cmd, ◌>>=◌, memory, stable}
use int_os.Pm.State.{Item, TaskState, Mem}
use int_os.OpLog.{TaskId, Ptr, set_micro_op_old_len, ListOpCode, get_micro_op}
use int_os.Sched.{get_sched_list, task_set, get_task}
use int_os.PList.{cursor_set}
use int_os.PRing.{next}
use int_os.Pm.Crash.{
  Outcome, may_fail, write-Outcome, and_then_assoc, run_with_crashes, memory-ended,
  run_with_crashes-target,
}
use int_os.ListTx.Boot.{recover_and_roll_forward_context_switch}
use int_os.ListTx.{
  is_blocked, switch_on, micro_op_set, atomic_roll_foward_context_switch, with_task_ptr,
}
use mathlib.Core.Path.{subst}
use int_os.ListTx.Switch.{Going, to-Going, from-Going, cursor-Going, switched, with_status}
use int_os.OpLog.Word.{get_micro_op-set}
use int_os.ListTx.SwitchRecovery.{
  next_to, next_from, Pending, finish-Outcome, to_apart, recover-Outcome,
}

module _ (prio : ℕ) (from to : TaskId) (c d : Ptr) (target : Mem)
    (apart : (from == to) ≡ false) where
  -- The last three writes of the switch.
  switches :
      (s : Mem)
      → Pending prio from to c d target apart s
      → s.cursor (get_sched_list prio) ≡ some c
      → (s.tasks from).status ≡ TaskState.ready
      → (s.tasks to).status ≡ TaskState.running
      → (r : Power)
      → Outcome (Pending prio from to c d target apart) target (may_fail r) (
          (next (get_sched_list prio) >>= λ _.
          (write (λ m. record m { current = to }) >> micro_op_set ListOpCode.invalid 0))
            r s)
  unfolding next set_micro_op_old_len
  switches s g at e e' r =
      subst (Outcome (Pending prio from to c d target apart) target (may_fail r)) (sym reached) (
        rw and_then_assoc (
          write-Outcome (cursor_set (get_sched_list prio) (some d)) _ s g
            (finish-Outcome prio from to c d target apart _
              (cursor-Going prio from to c d target apart s g e) e e'
              (update_self s.cursor (get_sched_list prio) (some d)))
            r))
    where
      last : Option Item → Cmd (Unit {0})
      last _ = write (λ m. record m { current = to }) >> micro_op_set ListOpCode.invalid 0

      reached : (next (get_sched_list prio) >>= last) r s ≡ (next_to prio (some d) >>= last) r s
      reached =
          ap (λ o. (next_from prio o >>= last) r s) at
          ∙ ap (λ q. (next_to prio q >>= last) r s) g.after

  -- The switch behind its log entry.
  switch-Outcome :
      (s : Mem)
      → Pending prio from to c d target apart s
      → s.cursor (get_sched_list prio) ≡ some c
      → is_blocked (s.tasks from).status ≡ false
      → (r : Power)
      → Outcome
          (Pending prio from to c d target apart)
          target
          (may_fail r)
          (switch_on to from (get_sched_list prio) r s)
  unfolding switch_on set_micro_op_old_len
  switch-Outcome s g at awake =
      write-Outcome (task_set to (with_status TaskState.running)) _ s g (λ r.
        rw (apart, awake)
          (write-Outcome (task_set from (with_status TaskState.ready)) _ _
            (to-Going prio from to c d target apart TaskState.running s g)
            (switches _
              (from-Going prio from to c d target apart _
                (to-Going prio from to c d target apart TaskState.running s g))
              at (rw (link_eq_refl (some from)) refl)
              (rw (to_apart prio from to c d target apart, link_eq_refl (some to)) refl))
            r))

-- A context switch from the task at the cursor of its ready list, which is not blocked, to the other
-- task at the next node, with a power failure after any number of the writes that follow the entry
-- in the log, and after any numbers `ns` of writes of the recoveries that follow, ends in the memory
-- that the switch leaves without failure. There the new task is the current one and runs, the old
-- one is ready, the cursor is at the new task, and no switch is in the log.
pub context_switch-crash_safe :
    (prio : ℕ) (from to : TaskId) (c d : Ptr) (m : Mem)
    → (from == to) ≡ false
    → m.cursor (get_sched_list prio) ≡ some c
    → m.next c ≡ some d
    → get_task (m.value c) ≡ pure from
    → get_task (m.value d) ≡ pure to
    → (m.tasks from).priority ≡ prio
    → is_blocked (m.tasks from).status ≡ false
    → (n : ℕ) (ns : List ℕ)
    → let switch = atomic_roll_foward_context_switch to from (get_sched_list prio) in
      (m' : Mem) × (memory (switch stable m) ≡ some m')
      × (run_with_crashes switch recover_and_roll_forward_context_switch (suc (suc n)) ns m
          ≡ some m')
      × (m'.current ≡ to)
      × ((m'.tasks to).status ≡ TaskState.running)
      × ((m'.tasks from).status ≡ TaskState.ready)
      × (m'.cursor (get_sched_list prio) ≡ some d)
      × (get_micro_op m'.log ≡ some ListOpCode.invalid)
unfolding atomic_roll_foward_context_switch set_micro_op_old_len run_with_crashes
context_switch-crash_safe prio from to c d m apart at after holds_from holds_to of_prio awake n ns =
    (
      target,
      memory-ended (switch-Outcome prio from to c d target apart m₁ start at awake stable) refl,
      run_with_crashes-target recover_and_roll_forward_context_switch
          (recover-Outcome prio from to c d target apart) (switch_on to from (get_sched_list prio))
          m₁ (switch-Outcome prio from to c d target apart m₁ start at awake) n ns,
      refl,
      rw (link_eq_refl (some to)) refl,
      rw (apart, link_eq_refl (some from)) refl,
      update_self m.cursor (get_sched_list prio) (some d),
      get_micro_op-set ListOpCode.invalid 0 m₁.log (omega arith),
    )
  where
    m₁ : Mem
    m₁ = record m {
      log = set_micro_op_old_len ListOpCode.ready_list_next 0 (with_task_ptr (some from) m.log);
    }

    target : Mem
    target = switched (get_sched_list prio) from to d m₁

    start : Going prio from to c d target apart m₁
    start = record {
      rest = refl;
      logged =
          get_micro_op-set ListOpCode.ready_list_next 0 (with_task_ptr (some from) m.log)
            (omega arith);
      prev_task = refl;
      after = after;
      holds_from = holds_from;
      holds_to = holds_to;
      of_prio = of_prio;
      stage = inl at;
    }
