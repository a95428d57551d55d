-- ===== src/PSorted.antt =====
-- The insertion into a list in ascending order, src/list.rs, `impl<T: Ord + OpLogListItem> PList<T>`,
-- and the insertions of `SortedPList<T>`, which log the operation first.
pub mod Inserted
pub mod Loop
pub mod Place
pub mod Parts
pub mod Ends
pub mod Search
pub mod Recover
pub mod Insert
pub mod Waiters
use int_os.Base.{ℕ, zero, suc, none, some, link_eq, if◌then◌else◌}
use int_os.OpLog.{Ptr, ListId, ListOpCode}
use int_os.Pm.State.{Kind, item_gt}
use int_os.Pm.Run.{out_of_fuel, Cmd, pure, ◌>>=◌, ◌>>◌, get, write}
use int_os.PList.{
  len_more, next_set, prev_set, list_set, len_set, head_set, start_op_log, len_up, next_of, prev_of,
  list_of, len_of, head_of,
}

-- `Some(p)`: `p.next = Some(link)`; `None`: `link` is the new head.
abbrev pub link_prev : ListId → Ptr → Cmd (Unit {0})
link_prev self link = do
  p ← prev_of link
  elim p [ none ↦ write (head_set self (some link)) | some z ↦ write (next_set z (some link)) ]

-- The node becomes the new tail, after `ptr`.
abbrev pub insert_after : ListId → Ptr → Ptr → Cmd (Unit {0})
insert_after self link ptr = do
  write (prev_set link (some ptr))
  write (next_set link none)
  write (next_set ptr (some link))
  len_up self

-- The node is inserted at the `prev` of `ptr`.
abbrev pub insert_before : ListId → Ptr → Ptr → Cmd (Unit {0})
insert_before self link ptr = do
  write (next_set link (some ptr))
  p ← prev_of ptr
  write (prev_set link p)
  write (prev_set ptr (some link))
  link_prev self link
  len_up self

-- `while new_node.value > node.value`, from the node `ptr`; one unit of fuel for each node.
unfoldable pub insert_from : ℕ → ListId → Ptr → Ptr → Cmd (Unit {0})
insert_from zero self link ptr = λ _ _. out_of_fuel
insert_from (suc k) self link ptr = do
  above ← get (λ m. item_gt m.tasks (m.value link) (m.value ptr))
  q ← next_of ptr
  if above
      then elim q [ none ↦ insert_after self link ptr | some np ↦ insert_from k self link np ]
      else insert_before self link ptr

unfoldable pub optimized_insert_sorted_impl : ListId → Ptr → Cmd (Unit {0})
unfolding insert_from
optimized_insert_sorted_impl self link = do
  write (list_set link (some self))
  head ← head_of self
  fuel ← len_of self
  elim head [
    | none ↦ (do write (head_set self (some link)); len_up self)
    | some ptr ↦ insert_from (suc fuel) self link ptr
  ]

unfoldable pub optimized_insert_sorted : ListId → Ptr → Cmd (Unit {0})
unfolding optimized_insert_sorted_impl
optimized_insert_sorted self link = do
  write (next_set link none)
  write (prev_set link none)
  optimized_insert_sorted_impl self link

-- The opcode of `SortedPList<T>::insert`.
unfoldable pub sorted_op : Kind → ListOpCode
sorted_op Kind.sched_kind = ListOpCode.insert_sorted_delay_list
sorted_op Kind.blocked_kind = ListOpCode.insert_sorted_wait_list
sorted_op Kind.timer_kind = ListOpCode.insert_sorted_delay_list

unfoldable pub insert : Kind → ListId → Ptr → Cmd (Unit {0})
unfolding optimized_insert_sorted sorted_op
insert t self link = do
  len ← len_of self
  start_op_log t (sorted_op t) len
  optimized_insert_sorted self link

-- Case 2 of the recovery: the node has its successor `q`.
abbrev pub recover_linked : ListId → Ptr → Ptr → ℕ → Cmd (Unit {0})
recover_linked self node q old_len = do
  p ← prev_of q
  (if link_eq p (some node)
      then pure tt
      else (do write (prev_set node p); write (prev_set q (some node))))
  link_prev self node
  write (list_set node (some self))
  write (len_set self (len_more old_len))

-- Case 3: the node is to be the tail, after `p`.
abbrev pub recover_tail : ListId → Ptr → Ptr → ℕ → Cmd (Unit {0})
recover_tail self node p old_len = do
  write (next_set node none)
  write (next_set p (some node))
  write (list_set node (some self))
  write (len_set self (len_more old_len))

-- Cases 4 and 5: the node is the only one, or was never inserted.
abbrev pub recover_unlinked : ListId → Ptr → ℕ → Cmd (Unit {0})
recover_unlinked self node old_len = do
  head ← head_of self
  if link_eq head (some node)
      then write (len_set self (len_more old_len))
      else (do write (len_set self old_len); optimized_insert_sorted_impl self node)

unfoldable pub recover_from_failed_insert_sorted : ListId → Ptr → ℕ → Cmd (Unit {0})
unfolding optimized_insert_sorted_impl
recover_from_failed_insert_sorted self node old_len = do
  list ← list_of node
  q ← next_of node
  p ← prev_of node
  if link_eq list (some self)
      then elim q [
        | some y ↦ recover_linked self node y old_len
        | none ↦ elim p [
          | some z ↦ recover_tail self node z old_len
          | none ↦ recover_unlinked self node old_len
        ]
      ]
      else (do
        write (next_set node none)
        write (prev_set node none)
        optimized_insert_sorted_impl self node)
