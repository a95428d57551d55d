-- ===== src/Messages/Served.antt =====
-- The items and free places that the woken tasks will take (src/queue.rs).
use mathlib.Core.Path.{subst}
use int_os.Base.{ℕ, ◌+◌, ◌≤◌, ◌≡◌, ◌⊎◌, sym, ap, ◌∙◌, inl, inr, arith, List, [], ◌∷◌, length}
use int_os.OpLog.{TaskId}
use int_os.Journal.{Bytes}
use int_os.Queue.Holds.{IsQueue}
use int_os.Schedule.{Delayed, remove_task}
use int_os.Messages.{Channel, wake_reader, wake_timed_out, still_waiting, timed_out}
use int_os.Messages.Passes.{Sent, Received}
use int_os.Messages.Wakes.{wake_reader-WakesReader, wake_writer-WakesWriter}

-- The queue holds `xs`; if a task sleeps until there is an item, each item has a woken reader, and if one
-- sleeps until there is room, each free place has a woken writer.
abbrev pub Served : ℕ → List Bytes → Channel → Type 0
Served len xs c =
    IsQueue c.queue xs
    × (c.queue.length ≡ len)
    × ((c.blocked_readers ≡ []) ⊎ (length xs ≤ length c.woken_readers))
    × ((c.blocked_writers ≡ []) ⊎ (len ≤ length xs + length c.woken_writers))

pub length-remove_task : (t : TaskId) (ts : List TaskId) → length ts ≤ length (remove_task t ts) + 1
unfolding remove_task
length-remove_task t [] = omega arith
length-remove_task t (x ∷ xs) = ground (arith, length-remove_task t xs)

-- A woken task goes on, at the start of its next pass.
abbrev pub writer_goes_on : TaskId → Channel → Channel
writer_goes_on t c = record c { woken_writers = remove_task t c.woken_writers }

abbrev pub reader_goes_on : TaskId → Channel → Channel
reader_goes_on t c = record c { woken_readers = remove_task t c.woken_readers }

pub Sent-Served :
    (len t : ℕ) (xs : List Bytes) (c c' : Channel)
    → Served len xs c
    → Sent (writer_goes_on t c) xs c'
    → (ys : List Bytes) × Served len ys c'
Sent-Served len t xs c c' h (inl (q, ys, e, is, more, same)) =
    let w = wake_reader-WakesReader (record (writer_goes_on t c) { queue = q }) in
    let left = length-remove_task t c.woken_writers in
    (
      ys,
      subst (Served len ys) (sym e) (
        subst (λ q. IsQueue q ys) (sym w.0) is,
        ap (λ q. q.length) w.0 ∙ same ∙ h.1,
        subst
            (λ n.
              ((wake_reader (record (writer_goes_on t c) { queue = q })).blocked_readers ≡ [])
              ⊎ (n
                  ≤ length (wake_reader (record (writer_goes_on t c) { queue = q })).woken_readers))
            (sym more) (w.3 (length xs) h.2),
        elim h.3 [
          | inl nobody ↦ inl (w.1 ∙ nobody)
          | inr enough ↦
              let same_woken = ap length w.2 in inr (omega (arith, enough, left, more, same_woken))
        ],
      ),
    )
Sent-Served len t xs c c' h (inr (full, queue, blocked, woken)) = (
  xs,
  (
    subst (λ q. IsQueue q xs) (sym queue) h.0,
    ap (λ q. q.length) queue ∙ h.1,
    elim h.2 [
      | inl nobody ↦ inl (blocked ∙ nobody)
      | inr enough ↦ let same = ap length woken in inr (omega (arith, enough, same))
    ],
    inr (omega (arith, full, h.1)),
  ),
)

pub Received-Served :
    (len t : ℕ) (xs : List Bytes) (c c' : Channel)
    → Served len xs c
    → Received (reader_goes_on t c) xs c'
    → (ys : List Bytes) × Served len ys c'
Received-Served len t xs c c' h (inl (q, ys, e, is, fewer, same)) =
    let w = wake_writer-WakesWriter (record (reader_goes_on t c) { queue = q }) in
    let left = length-remove_task t c.woken_readers in
    (
      ys,
      subst (Served len ys) (sym e) (
        subst (λ q. IsQueue q ys) (sym w.0) is,
        ap (λ q. q.length) w.0 ∙ same ∙ h.1,
        elim h.2 [
          | inl nobody ↦ inl (w.1 ∙ nobody)
          | inr enough ↦
              let same_woken = ap length w.2 in inr (omega (arith, enough, left, fewer, same_woken))
        ],
        elim h.3 [
          | inl nobody ↦ elim (w.3 len (inl nobody)) [
            | inl still_nobody ↦ inl still_nobody
            | inr many ↦ inr (omega (arith, many))
          ]
          | inr enough ↦ elim (w.3 (length c.woken_writers) (inr (omega arith))) [
            | inl nobody ↦ inl nobody
            | inr one_more ↦ inr (omega (arith, one_more, enough, fewer))
          ]
        ],
      ),
    )
Received-Served len t xs c c' h (inr (empty, queue, blocked, woken)) = (
  xs,
  (
    subst (λ q. IsQueue q xs) (sym queue) h.0,
    ap (λ q. q.length) queue ∙ h.1,
    inr (let none = ap length empty in omega (arith, none)),
    elim h.3 [
      | inl nobody ↦ inl (blocked ∙ nobody)
      | inr enough ↦ let same = ap length woken in inr (omega (arith, enough, same))
    ],
  ),
)

pub length-timed_out :
    (now : ℕ) (ds : List Delayed) (ts : List TaskId) → length ts ≤ length (timed_out now ds ts)
unfolding timed_out
length-timed_out now [] ts = omega arith
length-timed_out now (d ∷ ds) ts = ground (arith, length-timed_out now ds ts)

pub timed_out-Served :
    (len now : ℕ) (xs : List Bytes) (c : Channel)
    → Served len xs c
    → Served len xs (wake_timed_out now c)
unfolding wake_timed_out still_waiting
timed_out-Served len now xs c h = (
  h.0,
  h.1,
  elim h.2 [
    | inl nobody ↦ inl (ap (still_waiting now) nobody)
    | inr enough ↦
        let more = length-timed_out now c.blocked_readers c.woken_readers in
        inr (omega (arith, enough, more))
  ],
  elim h.3 [
    | inl nobody ↦ inl (ap (still_waiting now) nobody)
    | inr enough ↦
        let more = length-timed_out now c.blocked_writers c.woken_writers in
        inr (omega (arith, enough, more))
  ],
)
