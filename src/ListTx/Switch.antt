-- ===== src/ListTx/Switch.antt =====
-- A context switch with a power failure at any write, and its recovery (src/list.rs,
-- `atomic_roll_foward_context_switch`, `recover_and_roll_forward_context_switch`).
use int_os.Base.{
  some, ◌==◌, link_eq_comm, link_eq_refl, Bool-cases, update, update-update, update_eq, update_self,
  ℕ, ◌≡◌, refl, ap, ◌∙◌, fun_ext, ◌⊎◌, inl, inr, false,
}
use int_os.Pm.Run.{pure}
use int_os.Pm.State.{TaskState, Task, Mem}
use int_os.OpLog.{TaskId, ListId, Ptr, set_micro_op_old_len, ListOpCode, get_micro_op}
use int_os.Sched.{get_sched_list, task_set, get_task}
use int_os.PList.{cursor_set}

abbrev pub with_status : TaskState → Task → Task
with_status s t = record t { status = s }

-- The tasks after a switch.
abbrev pub settled : TaskId → TaskId → (TaskId → Task) → TaskId → Task
settled from to f =
    update (update f from (with_status TaskState.ready (f from))) to
      (with_status TaskState.running (f to))

-- The memory after the switch from `from` to `to`, whose node is `d`, in the ready list `l`.
abbrev pub switched : ListId → TaskId → TaskId → Ptr → Mem → Mem
switched l from to d m = record m {
  tasks = settled from to m.tasks;
  cursor = update m.cursor l (some d);
  current = to;
  log = set_micro_op_old_len ListOpCode.invalid 0 m.log;
}

module _ (from to : TaskId) (apart : (from == to) ≡ false) (f : TaskId → Task) where
  pub settled-to :
      (s : TaskState) → settled from to (update f to (with_status s (f to))) ≡ settled from to f
  settled-to s = fun_ext λ a. elim (Bool-cases (a == to)) [
    | inl hit ↦ rw (hit, link_eq_refl (some to)) refl
    | inr miss ↦ rw (miss, apart) refl
  ]

  pub settled-from :
      (s : TaskState) → settled from to (update f from (with_status s (f from))) ≡ settled from to f
  settled-from s = fun_ext λ a. elim (Bool-cases (a == to)) [
    | inl hit ↦ rw (hit, link_eq_comm (some to) (some from), apart) refl
    | inr miss ↦ elim (Bool-cases (a == from)) [
      | inl hit ↦ rw (miss, hit, link_eq_refl (some from)) refl
      | inr beside ↦ rw (miss, beside) refl
    ]
  ]

  pub settled-fixed :
      (f from).status ≡ TaskState.ready → (f to).status ≡ TaskState.running → settled from to f ≡ f
  settled-fixed e e' =
      ap (λ g. update g to (with_status TaskState.running (f to)))
        (update_eq f from (with_status TaskState.ready (f from))
          (λ j. record (f from) { status = e j }))
      ∙ update_eq f to (with_status TaskState.running (f to)) (λ j. record (f to) { status = e' j })

-- The switch is under way, with the cursor of the ready list at the node `c` of the old task or at
-- the node `d` of the new one.
pub record Switching (prio : ℕ) (from to : TaskId) (c d : Ptr) (target s : Mem) : Type 0 where
  pub rest : switched (get_sched_list prio) from to d s ≡ target
  pub logged : get_micro_op s.log ≡ some ListOpCode.ready_list_next
  pub prev_task : s.log.task_ptr ≡ some from
  pub after : s.next c ≡ some d
  pub holds_from : get_task (s.value c) ≡ pure from
  pub holds_to : get_task (s.value d) ≡ pure to
  pub of_prio : (s.tasks from).priority ≡ prio
  pub stage :
      (s.cursor (get_sched_list prio) ≡ some c)
      ⊎ ((s.cursor (get_sched_list prio) ≡ some d) × ((s.tasks from).status ≡ TaskState.ready))

module _ (prio : ℕ) (from to : TaskId) (c d : Ptr) (target : Mem)
    (apart : (from == to) ≡ false) where
  abbrev pub Going : Mem → Type 0
  Going = Switching prio from to c d target

  -- A new status of the new task.
  pub to-Going : (st : TaskState) (s : Mem) → Going s → Going (task_set to (with_status st) s)
  to-Going st s g = record {
    rest =
        (λ i. record (switched (get_sched_list prio) from to d s) {
          tasks = settled-to from to apart s.tasks st i;
        })
        ∙ g.rest;
    logged = g.logged;
    prev_task = g.prev_task;
    after = g.after;
    holds_from = g.holds_from;
    holds_to = g.holds_to;
    of_prio = rw apart g.of_prio;
    stage = elim g.stage [ inl e ↦ inl e | inr e ↦ inr (e.0, rw apart e.1) ];
  }

  pub from-Going : (s : Mem) → Going s → Going (task_set from (with_status TaskState.ready) s)
  from-Going s g = record {
    rest =
        (λ i. record (switched (get_sched_list prio) from to d s) {
          tasks = settled-from from to apart s.tasks TaskState.ready i;
        })
        ∙ g.rest;
    logged = g.logged;
    prev_task = g.prev_task;
    after = g.after;
    holds_from = g.holds_from;
    holds_to = g.holds_to;
    of_prio = rw (link_eq_refl (some from)) g.of_prio;
    stage = elim g.stage [ inl e ↦ inl e | inr e ↦ inr (e.0, rw (link_eq_refl (some from)) refl) ];
  }

  pub cursor-Going :
      (s : Mem)
      → Going s
      → (s.tasks from).status ≡ TaskState.ready
      → Going (cursor_set (get_sched_list prio) (some d) s)
  cursor-Going s g r = record {
    rest =
        (λ i. record (switched (get_sched_list prio) from to d s) {
          cursor = update-update s.cursor (get_sched_list prio) (some d) (some d) i;
        })
        ∙ g.rest;
    logged = g.logged;
    prev_task = g.prev_task;
    after = g.after;
    holds_from = g.holds_from;
    holds_to = g.holds_to;
    of_prio = g.of_prio;
    stage = inr (update_self s.cursor (get_sched_list prio) (some d), r);
  }

  pub current-Going : (s : Mem) → Going s → Going (record s { current = to })
  current-Going s g = record {
    rest = g.rest;
    logged = g.logged;
    prev_task = g.prev_task;
    after = g.after;
    holds_from = g.holds_from;
    holds_to = g.holds_to;
    of_prio = g.of_prio;
    stage = g.stage;
  }
