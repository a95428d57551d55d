-- ===== src/OpLog.antt =====
-- The log of the list transactions, src/list.rs (`ListTxOpLog`, `ListOpCode`, `ListTxOpCode`), under
-- the feature `crash_safe`. One word holds the micro operation in progress and the length that its
-- list had before: the opcode in the high bits, the length in the low 12.
pub mod Word
use Prim.Native.Nat.{bit_and, bit_or}
use int_os.Base.{ℕ, ◌*◌, ◌/◌, ◌^◌, Option, none, some, ◌==◌, if◌then◌else◌}

abbrev pub Ptr : Type 0
Ptr = ℕ

abbrev pub ListId : Type 0
ListId = ℕ

abbrev pub TaskId : Type 0
TaskId = ℕ

pub data ListOpCode : Type 0 where
  invalid insert_before_cursor insert_front insert_sorted_wait_list : ListOpCode
  insert_sorted_delay_list pop_front remove ready_list_next : ListOpCode

pub data ListTxOpCode : Type 0 where
  invalid wait_list_pop_removal wait_list_insert wait_list_removal : ListTxOpCode
  unsorted_wait_list_insert delay_list_removal delay_list_insert ready_list_insert : ListTxOpCode
  active_list_remove active_list_remove_re_insert active_list_pop_re_insert : ListTxOpCode
  active_list_pop active_list_tx_committed ready_list_next : ListTxOpCode

pub record ListTxOpLog : Type 0 where
  pub op : ListTxOpCode
  pub micro_op_old_len : ℕ
  pub block_node_ptr : Option Ptr
  pub task_ptr : Option TaskId
  pub wait_list_ptr : Option ListId

abbrev pub new : ListTxOpLog
new = record {
  op = ListTxOpCode.invalid;
  micro_op_old_len = 0;
  block_node_ptr = none;
  task_ptr = none;
  wait_list_ptr = none;
}

abbrev pub op_code_shift : ℕ
op_code_shift = 12

-- `op as usize`
unfoldable pub op_code : ListOpCode → ℕ
op_code ListOpCode.invalid = 0
op_code ListOpCode.insert_before_cursor = 1
op_code ListOpCode.insert_front = 2
op_code ListOpCode.insert_sorted_wait_list = 3
op_code ListOpCode.insert_sorted_delay_list = 4
op_code ListOpCode.pop_front = 5
op_code ListOpCode.remove = 6
op_code ListOpCode.ready_list_next = 7

-- `transmute` of a number: `none` where no opcode has that number, which is undefined behaviour.
unfoldable pub from_code : ℕ → Option ListOpCode
from_code n =
    if n == 0
    then some ListOpCode.invalid
    else if n == 1
    then some ListOpCode.insert_before_cursor
    else if n == 2
    then some ListOpCode.insert_front
    else if n == 3
    then some ListOpCode.insert_sorted_wait_list
    else if n == 4
    then some ListOpCode.insert_sorted_delay_list
    else if n == 5
    then some ListOpCode.pop_front
    else if n == 6
    then some ListOpCode.remove
    else if n == 7
    then some ListOpCode.ready_list_next
    else none

-- `((op as usize) << OP_CODE_SHIFT) | old_len`
unfoldable pub pack : ListOpCode → ℕ → ℕ
unfolding op_code
pack op old_len = bit_or (op_code op * 2 ^ op_code_shift) old_len

unfoldable pub set_micro_op_old_len : ListOpCode → ℕ → ListTxOpLog → ListTxOpLog
set_micro_op_old_len op old_len log = record log { micro_op_old_len = pack op old_len }

unfoldable pub get_micro_op : ListTxOpLog → Option ListOpCode
unfolding from_code
get_micro_op log = from_code (log.micro_op_old_len / 2 ^ op_code_shift)

unfoldable pub get_old_len : ListTxOpLog → ℕ
get_old_len log = bit_and log.micro_op_old_len 0xfff
