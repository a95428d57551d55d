-- ===== src/Messages/Woken.antt =====
-- No wake-up is lost (src/queue.rs).
use mathlib.Core.Path.{subst}
use mathlib.Core.Option.{some-injective}
use int_os.Base.{
  ℕ, ◌+◌, ◌*◌, ◌≤◌, ◌<◌, ◌≡◌, ◌⊎◌, refl, sym, ap, ◌∙◌, inl, Bool, Option, some, List, [], length,
  usize_mod,
}
use int_os.OpLog.{TaskId}
use int_os.Journal.{Bytes}
use int_os.Queue.{Queue, new}
use int_os.Queue.Holds.{IsQueue}
use int_os.Queue.Ring.{new-IsQueue}
use int_os.Queue.Runs.{new-fields}
use int_os.Messages.{Channel, Pass, queue_send_pass, queue_receive_pass, wake_timed_out}
use int_os.Messages.Passes.{Sent, Received, queue_send_pass-Sent, queue_receive_pass-Received}
use int_os.Messages.Served.{
  Served, writer_goes_on, reader_goes_on, Sent-Served, Received-Served, timed_out-Served,
}

-- What may become of a new queue: passes of sends and receives of any tasks, in any order, and ticks.
pub data Runs (priority : TaskId → ℕ) (len item_size : ℕ) : Channel → Type 0 where
  made :
      {q : Queue} (buffer : Bytes)
      → new len item_size buffer ≡ some q
      → Runs priority len item_size (record {
        queue = q;
        blocked_readers = [];
        blocked_writers = [];
        woken_readers = [];
        woken_writers = [];
      })
  send :
      {c c' : Channel} {p : Pass (Unit {0})} (is_back : Bool) (item : Bytes) (t wait_ticks : ℕ)
      (set_time : Option ℕ) (now : ℕ)
      → Runs priority len item_size c
      → queue_send_pass priority is_back item t wait_ticks set_time now (writer_goes_on t c)
        ≡ (p, c')
      → Runs priority len item_size c'
  receive :
      {c c' : Channel} {p : Pass Bytes} (t wait_ticks : ℕ) (set_time : Option ℕ) (now : ℕ)
      → Runs priority len item_size c
      → queue_receive_pass priority t wait_ticks set_time now (reader_goes_on t c) ≡ (p, c')
      → Runs priority len item_size c'
  tick :
      {c : Channel} (now : ℕ)
      → Runs priority len item_size c
      → Runs priority len item_size (wake_timed_out now c)

Runs-Served :
    {priority : TaskId → ℕ} {len item_size : ℕ} {c : Channel}
    → 0 < len
    → 0 < item_size
    → item_size * len < usize_mod
    → Runs priority len item_size c
    → (xs : List Bytes) × Served len xs c
Runs-Served {priority} {len} {item_size} room sized small (made {q} buffer e) =
    let fresh = new-IsQueue len item_size buffer room sized small in
    let same : fresh.0 ≡ q = some-injective _ _ (sym fresh.1 ∙ e) in
    (
      [],
      (
        subst (λ q. IsQueue q []) same fresh.2,
        (new-fields len item_size buffer q e).1,
        inl refl,
        inl refl,
      ),
    )
Runs-Served {priority} {len} room sized small
      (send {c} {c'} {p} is_back item t wait_ticks set_time now runs e) =
    let (xs, ih) = Runs-Served room sized small runs in
    let sent =
      queue_send_pass-Sent priority t wait_ticks set_time now (writer_goes_on t c) is_back item xs
        ih.0 in
    Sent-Served len t xs c c' ih (subst (Sent (writer_goes_on t c) xs) (ap (λ r. r.1) e) sent)
Runs-Served {priority} {len} room sized small
      (receive {c} {c'} {p} t wait_ticks set_time now runs e) =
    let (xs, ih) = Runs-Served room sized small runs in
    let received =
      queue_receive_pass-Received priority t wait_ticks set_time now (reader_goes_on t c) xs ih.0 in
    Received-Served len t xs c c' ih
      (subst (Received (reader_goes_on t c) xs) (ap (λ r. r.1) e) received)
Runs-Served {priority} {len} room sized small (tick {c} now runs) =
    let (xs, ih) = Runs-Served room sized small runs in (xs, timed_out-Served len now xs c ih)

-- A new queue with room for items that fit in the memory, and any passes of sends and receives of any
-- tasks, with any ticks in between: the queue holds a list of items; when a task sleeps until there is
-- an item, at least as many woken readers have still to go on as there are items, and when one sleeps
-- until there is room, at least as many woken writers as there are free places.
pub Runs-wakes :
    {priority : TaskId → ℕ} {len item_size : ℕ} {c : Channel}
    → 0 < len
    → 0 < item_size
    → item_size * len < usize_mod
    → Runs priority len item_size c
    → (xs : List Bytes) × IsQueue c.queue xs
      × (c.queue.length ≡ len)
      × ((c.blocked_readers ≡ []) ⊎ (length xs ≤ length c.woken_readers))
      × ((c.blocked_writers ≡ []) ⊎ (len ≤ length xs + length c.woken_writers))
Runs-wakes room sized small runs =
    let (xs, h) = Runs-Served room sized small runs in (xs, h.0, h.1, h.2, h.3)
