-- ===== src/PList.antt =====
-- The linked lists in persistent memory, src/list.rs, `PList<T>` under the features `opt_list` and
-- `crash_safe`: the operations that write without a journal, and their recoveries. A list `self` and
-- a node `link` are addresses, and `t` is the type of the items. `len` is a 32-bit `usize`.
pub mod Steps
pub mod Logged
pub mod Removal
pub mod Remove
pub mod PopFront
pub mod FrontLinks
pub mod InsertFront
use int_os.Base.{
  usize_mod, ℕ, ◌+◌, ◌-◌, ◌%◌, ◌^◌, Option, none, some, update, ◌==◌, link_eq, if◌then◌else◌,
}
use mathlib.Core.Option
use int_os.OpLog.{Ptr, ListId, ListOpCode, set_micro_op_old_len}
use int_os.Pm.State.{PLink, PListLink, Kind, Item, Mem}
use int_os.Pm.Run.{Cmd, pure, ◌>>=◌, ◌>>◌, get, write, when, unwrap, for_some}

abbrev pub len_more : ℕ → ℕ
len_more n = (n + 1) % usize_mod

abbrev pub len_less : ℕ → ℕ
len_less n = (n + usize_mod - 1) % usize_mod

-- The memory after one assignment.
abbrev pub next_set : Ptr → PLink → Mem → Mem
next_set p v m = record m { next = update m.next p v }

abbrev pub prev_set : Ptr → PLink → Mem → Mem
prev_set p v m = record m { prev = update m.prev p v }

abbrev pub list_set : Ptr → PListLink → Mem → Mem
list_set p v m = record m { list = update m.list p v }

abbrev pub len_set : ListId → ℕ → Mem → Mem
len_set l v m = record m { len = update m.len l v }

abbrev pub cursor_set : ListId → PLink → Mem → Mem
cursor_set l v m = record m { cursor = update m.cursor l v }

abbrev pub head_set : ListId → PLink → Mem → Mem
head_set l v m = record m { head = update m.head l v }

-- The first for the items of tasks, the second for timers.
abbrev pub kind_case {ℓ} : {A : Type ℓ} → Kind → A → A → A
kind_case Kind.sched_kind a b = a
kind_case Kind.blocked_kind a b = a
kind_case Kind.timer_kind a b = b

-- `T::start_op_log(opcode, old_len)`: timers have a log of their own.
abbrev pub op_logged : Kind → ListOpCode → ℕ → Mem → Mem
op_logged t op n m = record m {
  log = kind_case t (set_micro_op_old_len op n m.log) m.log;
  timer_log = kind_case t m.timer_log (set_micro_op_old_len op n m.timer_log);
}

abbrev pub start_op_log : Kind → ListOpCode → ℕ → Cmd (Unit {0})
start_op_log t op n = write (op_logged t op n)

abbrev pub len_up : ListId → Cmd (Unit {0})
len_up l = do n ← get (λ m. m.len l); write (len_set l (len_more n))

abbrev pub len_down : ListId → Cmd (Unit {0})
len_down l = do n ← get (λ m. m.len l); write (len_set l (len_less n))

-- The fields of a node and of a list.
abbrev pub next_of : Ptr → Cmd PLink
next_of p = get (λ m. m.next p)

abbrev pub prev_of : Ptr → Cmd PLink
prev_of p = get (λ m. m.prev p)

abbrev pub list_of : Ptr → Cmd PListLink
list_of p = get (λ m. m.list p)

abbrev pub len_of : ListId → Cmd ℕ
len_of l = get (λ m. m.len l)

abbrev pub cursor_of : ListId → Cmd PLink
cursor_of l = get (λ m. m.cursor l)

abbrev pub head_of : ListId → Cmd PLink
head_of l = get (λ m. m.head l)

-- `if self.cursor == Some(link) { self.cursor = node.next }`, and the same for the head.
abbrev pub cursor_past : ListId → Ptr → Cmd (Unit {0})
cursor_past self link = do
  cursor ← cursor_of self
  when (link_eq cursor (some link)) (do q ← next_of link; write (cursor_set self q))

abbrev pub head_past : ListId → Ptr → Cmd (Unit {0})
head_past self link = do
  head ← head_of self
  when (link_eq head (some link)) (do q ← next_of link; write (head_set self q))

-- `node.prev.map(|ptr| ptr.next = node.next); node.next.map(|ptr| ptr.prev = node.prev)`
abbrev pub bypass_next : Ptr → Cmd (Unit {0})
bypass_next link = do
  q ← next_of link
  for_some q (λ ptr. do p ← prev_of link; write (prev_set ptr p))

abbrev pub bypass : Ptr → Cmd (Unit {0})
bypass link = do
  p ← prev_of link
  for_some p (λ ptr. do q ← next_of link; write (next_set ptr q))
  bypass_next link

-- The neighbours of `link`, the cursor and the head are moved past it.
abbrev pub detach : ListId → Ptr → Cmd (Unit {0})
detach self link = do bypass link; cursor_past self link; head_past self link

-- The part of `optimized_remove_impl` behind its guard.
abbrev pub unlink : ListId → Ptr → ℕ → Cmd (Unit {0})
unlink self link len = do
  (if len == 1
      then (do write (cursor_set self none); write (head_set self none))
      else detach self link)
  len_down self
  write (list_set link none)

unfoldable pub optimized_remove_impl : ListId → Ptr → Cmd (Unit {0})
optimized_remove_impl self link = do
  list ← list_of link
  len ← len_of self
  if link_eq list none then pure tt else unlink self link len

unfoldable pub optimized_remove : Kind → ListId → Ptr → Cmd (Unit {0})
unfolding optimized_remove_impl
optimized_remove t self link = do
  len ← len_of self
  start_op_log t ListOpCode.remove len
  optimized_remove_impl self link

unfoldable pub recover_from_failed_remove : ListId → Ptr → ℕ → Cmd (Unit {0})
recover_from_failed_remove self removed_ptr old_len = do
  detach self removed_ptr
  write (len_set self (len_less old_len))
  write (list_set removed_ptr none)

-- `self.head.map(|ptr| ptr.prev = None); if self.cursor == old_head { self.cursor = self.head }`
abbrev pub clear_front : ListId → Cmd (Unit {0})
clear_front self = do head ← head_of self; for_some head (λ ptr. write (prev_set ptr none))

abbrev pub cursor_to_head : ListId → PLink → Cmd (Unit {0})
cursor_to_head self old_head = do
  cursor ← cursor_of self
  when (link_eq cursor old_head) (do head ← head_of self; write (cursor_set self head))

-- The part of `optimized_pop_front` behind the log, at the head `ptr`.
abbrev pub pop_head : ListId → Ptr → Cmd PLink
pop_head self ptr = do
  next ← next_of ptr
  write (head_set self next)
  clear_front self
  cursor_to_head self (some ptr)
  len_down self
  write (list_set ptr none)
  pure (some ptr)

unfoldable pub optimized_pop_front : Kind → ListId → Cmd PLink
optimized_pop_front t self = do
  old_head ← head_of self
  len ← len_of self
  elim old_head [
    | none ↦ pure none
    | some ptr ↦ (do start_op_log t ListOpCode.pop_front len; pop_head self ptr)
  ]

unfoldable pub recover_from_failed_pop_front : Kind → ListId → Ptr → ℕ → Cmd (Unit {0})
recover_from_failed_pop_front t self old_head_ptr old_len = do
  head ← head_of self
  if link_eq head (some old_head_ptr) then (do _ ← optimized_pop_front t self; pure tt) else (do
    clear_front self
    cursor_to_head self (some old_head_ptr)
    write (len_set self (len_less old_len))
    write (list_set old_head_ptr none))

-- Puts `link` before the head `ptr`, and makes it the head.
abbrev pub link_front : ListId → Ptr → Cmd (Unit {0})
link_front self link = do
  write (prev_set link none)
  write (next_set link none)
  head ← head_of self
  elim head [
    | none ↦ write (head_set self (some link))
    | some ptr ↦ do
      write (next_set link (some ptr))
      write (prev_set ptr (some link))
      write (head_set self (some link))
  ]

unfoldable pub optimized_insert_front_impl : ListId → Ptr → Cmd (Unit {0})
optimized_insert_front_impl self link = do
  link_front self link
  len_up self
  write (list_set link (some self))

unfoldable pub optimized_insert_front : Kind → ListId → Ptr → Cmd (Unit {0})
unfolding optimized_insert_front_impl
optimized_insert_front t self link = do
  len ← len_of self
  start_op_log t ListOpCode.insert_front len
  optimized_insert_front_impl self link

unfoldable pub recover_from_failed_insert_front : ListId → Ptr → ℕ → Cmd (Unit {0})
recover_from_failed_insert_front self node_ptr old_len = do
  head ← head_of self
  (if link_eq head (some node_ptr) then pure tt else link_front self node_ptr)
  write (len_set self (len_more old_len))
  write (list_set node_ptr (some self))
