-- ===== src/PRing.antt =====
-- The circular lists in persistent memory, src/list.rs, `CircularPList<T>`: the insertion before the
-- cursor with its recovery, and the moves and reads of the cursor.
pub mod Crashed
use mathlib.Core.Option
use int_os.Base.{
  length, usize_mod, ltb, leb, ◌==◌, if◌then◌else◌, link_eq, link_eq→eq, link_eq_comm, link_eq_refl,
  Bool-cases, Option-cases, ==→eq, leb→le, ltb→lt, bit_and_mask, length-append, has, update,
  update-update, update_comm, update_comm_same, update_eq, update_self, update_ne, ℕ, zero, suc,
  ◌+◌, ◌-◌, ◌*◌, ◌/◌, ◌%◌, ◌^◌, ◌≤◌, ◌<◌, ◌≡◌, refl, sym, ap, ◌∙◌, fun_ext, ◌≢◌, ◌⊎◌, inl, inr,
  Bool, true, false, ◌&&◌, ◌||◌, not, Option, none, some, List, [], ◌∷◌, ◌++◌, map, arith,
}
use int_os.Pm.Run.{◌>>=◌, ◌>>◌, Cmd, write, unwrap, pure, get, when}
use int_os.OpLog.{ListId, Ptr, ListOpCode}
use int_os.Pm.State.{Kind, Item}
use int_os.PList.{
  prev_of, cursor_of, list_of, len_of, prev_set, head_of, list_set, start_op_log, next_set, len_up,
  len_set, next_of, head_set, cursor_set, len_more,
}

-- Links `link` in before the cursor `ptr`.
abbrev pub link_before : ListId → Ptr → Ptr → Cmd (Unit {0})
link_before self link ptr = do
  p ← prev_of ptr
  write (prev_set link p)
  cursor ← cursor_of self
  write (next_set link cursor)
  p' ← prev_of link
  z ← unwrap p'
  write (next_set z (some link))
  write (prev_set ptr (some link))

-- `if self.cursor == self.head { self.head = Some(link) }`
abbrev pub head_to : ListId → Ptr → Cmd (Unit {0})
head_to self link = do
  cursor ← cursor_of self
  head ← head_of self
  when (link_eq cursor head) (write (head_set self (some link)))

-- The first node of a list is its own neighbour on both sides.
abbrev pub link_alone : ListId → Ptr → Cmd (Unit {0})
link_alone self link = do
  write (prev_set link (some link))
  write (next_set link (some link))
  write (cursor_set self (some link))
  write (head_set self (some link))

unfoldable pub optimized_insert_before_cursor_impl : ListId → Ptr → Cmd (Unit {0})
optimized_insert_before_cursor_impl self link = do
  list ← list_of link
  if link_eq list none
      then (do
        write (list_set link (some self))
        cursor ← cursor_of self
        elim cursor [
          | none ↦ link_alone self link
          | some ptr ↦ (do link_before self link ptr; head_to self link)
        ]
        len_up self)
      else pure tt

unfoldable pub optimized_insert_before_cursor : Kind → ListId → Ptr → Cmd (Unit {0})
unfolding optimized_insert_before_cursor_impl
optimized_insert_before_cursor t self link = do
  len ← len_of self
  start_op_log t ListOpCode.insert_before_cursor len
  optimized_insert_before_cursor_impl self link

unfoldable pub recover_from_failed_insert_before_cursor : ListId → Ptr → ℕ → Cmd (Unit {0})
recover_from_failed_insert_before_cursor self node_ptr old_len = do
  (if old_len == 0 then link_alone self node_ptr else (do
    cursor ← cursor_of self
    ptr ← unwrap cursor
    p ← prev_of ptr
    (if link_eq p (some node_ptr) then pure tt else link_before self node_ptr ptr)
    head_to self node_ptr))
  write (len_set self (len_more old_len))

unfoldable pub next : ListId → Cmd (Option Item)
next self = do
  cursor ← cursor_of self
  elim cursor [
    | none ↦ pure none
    | some ptr ↦ do
      q ← next_of ptr
      write (cursor_set self q)
      c ← cursor_of self
      get (λ m. Option.map m.value c)
  ]

unfoldable pub cursor_item : ListId → Cmd (Option Item)
cursor_item self = do c ← cursor_of self; get (λ m. Option.map m.value c)

unfoldable pub peek_next : ListId → Cmd (Option Item)
peek_next self = do
  cursor ← cursor_of self
  elim cursor [ none ↦ pure none | some ptr ↦ do q ← next_of ptr; get (λ m. Option.map m.value q) ]

unfoldable pub peek_front : ListId → Cmd (Option Item)
peek_front self = do head ← head_of self; get (λ m. Option.map m.value head)
