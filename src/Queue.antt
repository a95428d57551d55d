-- ===== src/Queue.antt =====
-- The message queue, src/queue.rs (`Queue`): a ring of `length` items of `item_size` bytes. The buffer
-- is a byte for each offset, and an item the bytes that its pointer leads to. The journal, which
-- restores the fields when a transaction fails, is the one of src/pmem.rs. A `usize` has 32 bits.
pub mod Slots
pub mod Holds
pub mod Ring
pub mod Front
pub mod Runs
use int_os.Base.{
  usize_mod, ℕ, if◌then◌else◌, ◌^◌, Option, Bool, ◌+◌, ◌==◌, none, ◌%◌, ◌-◌, some, ◌*◌,
}
use int_os.Journal.{Bytes, copy_nonoverlapping}

pub record Queue : Type 0 where
  pub length : ℕ
  pub item_size : ℕ
  pub buffer : Bytes
  pub read_pos : ℕ
  pub write_pos : ℕ
  pub tail : ℕ
  pub items_enqueued : ℕ

pub data QueueErr : Type 0 where
  no_memory invalid_param queue_deleted queue_full queue_empty : QueueErr

pub data Result (A : Type 0) : Type 0 where
  ok : A → Result A
  err : QueueErr → Result A

-- `Queue::new` with a buffer that was allocated: `none` for a queue without items.
unfoldable pub new : ℕ → ℕ → Bytes → Option Queue
new length item_size buffer =
    if length == 0
    then none
    else some (record {
      length = length;
      item_size = item_size;
      buffer = buffer;
      read_pos = 0;
      write_pos = 0;
      tail = item_size * length % usize_mod;
      items_enqueued = 0;
    })

abbrev pub is_full : Queue → Bool
is_full q = q.items_enqueued == q.length

abbrev pub is_empty : Queue → Bool
is_empty q = q.items_enqueued == 0

-- `*pos += n; if *pos == self.tail { *pos = 0 }`
unfoldable pub advance : ℕ → ℕ → ℕ → ℕ
advance tail pos n = if (pos + n) % usize_mod == tail then 0 else (pos + n) % usize_mod

unfoldable pub push_back : Bytes → Queue → Result Queue
unfolding advance copy_nonoverlapping
push_back item q =
    if is_full q
    then err queue_full
    else ok (record q {
      buffer = copy_nonoverlapping q.item_size item 0 q.buffer q.write_pos;
      write_pos = advance q.tail q.write_pos q.item_size;
      items_enqueued = (q.items_enqueued + 1) % usize_mod;
    })

-- The position before `pos` in the ring.
unfoldable pub back : Queue → ℕ
back q = if q.read_pos == 0 then q.tail - q.item_size else q.read_pos - q.item_size

unfoldable pub push_front : Bytes → Queue → Result Queue
unfolding back copy_nonoverlapping
push_front item q =
    if is_full q
    then err queue_full
    else ok (record q {
      buffer = copy_nonoverlapping q.item_size item 0 q.buffer (back q);
      read_pos = back q;
      items_enqueued = (q.items_enqueued + 1) % usize_mod;
    })

-- `dequeue::<T>`, where `size` is the size of `T`: the item is its bytes.
unfoldable pub dequeue : ℕ → Queue → Result (Bytes × Queue)
unfolding advance
dequeue size q =
    if is_empty q
    then err queue_empty
    else ok (
      λ b. q.buffer (q.read_pos + b),
      record q { read_pos = advance q.tail q.read_pos size; items_enqueued = q.items_enqueued - 1 },
    )
