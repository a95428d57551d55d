-- ===== src/Messages/Passes.antt =====
-- What a pass does to the queue (src/queue.rs).
use int_os.Base.{
  ℕ, ◌+◌, ◌≡◌, ◌⊎◌, refl, ap, ◌∙◌, inl, inr, arith, Bool, true, false, Option, Option-cases, List,
  [], ◌∷◌, ◌++◌, length, length-append, ◌==◌, Bool-cases,
}
use int_os.OpLog.{TaskId}
use int_os.Journal.{Bytes}
use int_os.Queue.{Queue}
use int_os.Queue.Holds.{IsQueue}
use int_os.Queue.Ring.{push_back-refines}
use int_os.Queue.Front.{push_front-refines, dequeue-refines}
use int_os.Queue.Runs.{push_back-length, push_front-length, dequeue-length}
use int_os.Messages.{
  Channel, queue_send_pass, queue_receive_pass, wait_to_send, wait_to_receive, wakeup_time,
  wake_reader, wake_writer,
}

-- What a pass of a send does to a queue with the items `xs`: it adds one and wakes the first reader, or
-- finds the queue full and changes at most the list of the blocked writers.
abbrev pub Sent : Channel → List Bytes → Channel → Type 0
Sent c xs c' =
    ((q : Queue) × (ys : List Bytes) × (c' ≡ wake_reader (record c { queue = q }))
      × IsQueue q ys
      × (length ys ≡ length xs + 1)
      × (q.length ≡ c.queue.length))
    ⊎ ((length xs ≡ c.queue.length)
        × (c'.queue ≡ c.queue)
        × (c'.blocked_readers ≡ c.blocked_readers)
        × (c'.woken_readers ≡ c.woken_readers))

abbrev pub Received : Channel → List Bytes → Channel → Type 0
Received c xs c' =
    ((q : Queue) × (ys : List Bytes) × (c' ≡ wake_writer (record c { queue = q }))
      × IsQueue q ys
      × (length xs ≡ length ys + 1)
      × (q.length ≡ c.queue.length))
    ⊎ ((xs ≡ [])
        × (c'.queue ≡ c.queue)
        × (c'.blocked_writers ≡ c.blocked_writers)
        × (c'.woken_writers ≡ c.woken_writers))

module _ (priority : TaskId → ℕ) (t wait_ticks : ℕ) (set_time : Option ℕ) (now : ℕ)
    (c : Channel) where
  wait_to_send-keeps :
      let c' = (wait_to_send priority t wait_ticks set_time now c).1 in
      (c'.queue ≡ c.queue)
      × (c'.blocked_readers ≡ c.blocked_readers)
      × (c'.woken_readers ≡ c.woken_readers)
  unfolding wait_to_send
  wait_to_send-keeps = elim (Bool-cases (wait_ticks == 0)) [
    | inl no_wait ↦ rw no_wait (refl, refl, refl)
    | inr waits ↦ rw waits (elim (Option-cases (wakeup_time set_time wait_ticks now)) [
      | inl over ↦ rw over (refl, refl, refl)
      | inr (w, fits) ↦ rw fits (refl, refl, refl)
    ])
  ]

  wait_to_receive-keeps :
      let c' = (wait_to_receive priority t wait_ticks set_time now c).1 in
      (c'.queue ≡ c.queue)
      × (c'.blocked_writers ≡ c.blocked_writers)
      × (c'.woken_writers ≡ c.woken_writers)
  unfolding wait_to_receive
  wait_to_receive-keeps = elim (Bool-cases (wait_ticks == 0)) [
    | inl no_wait ↦ rw no_wait (refl, refl, refl)
    | inr waits ↦ rw waits (elim (Option-cases (wakeup_time set_time wait_ticks now)) [
      | inl over ↦ rw over (refl, refl, refl)
      | inr (w, fits) ↦ rw fits (refl, refl, refl)
    ])
  ]

  pub queue_send_pass-Sent :
      (is_back : Bool) (item : Bytes) (xs : List Bytes)
      → IsQueue c.queue xs
      → Sent c xs (queue_send_pass priority is_back item t wait_ticks set_time now c).1
  unfolding queue_send_pass
  queue_send_pass-Sent true item xs is = elim (push_back-refines c.queue xs item is) [
    | inl (room, q, e, is') ↦
        let more = length-append xs (item ∷ []) in
        inl (
          q,
          xs ++ (item ∷ []),
          rw (queue_send_pass, e) refl,
          is',
          more,
          push_back-length item c.queue q e,
        )
    | inr (full, e) ↦ inr (
        rw (queue_send_pass, e)
          (full, wait_to_send-keeps.0, wait_to_send-keeps.1, wait_to_send-keeps.2))
  ]
  queue_send_pass-Sent false item xs is = elim (push_front-refines c.queue xs item is) [
    | inl (room, q, e, is') ↦ inl (
      q,
      item ∷ xs,
      rw (queue_send_pass, e) refl,
      is',
      omega arith,
      push_front-length item c.queue q e,
    )
    | inr (full, e) ↦ inr (
        rw (queue_send_pass, e)
          (full, wait_to_send-keeps.0, wait_to_send-keeps.1, wait_to_send-keeps.2))
  ]

  pub queue_receive_pass-Received :
      (xs : List Bytes)
      → IsQueue c.queue xs
      → Received c xs (queue_receive_pass priority t wait_ticks set_time now c).1
  unfolding queue_receive_pass
  queue_receive_pass-Received xs is = elim (dequeue-refines c.queue xs is) [
    | inl (empty, e) ↦ inr (
        rw (queue_receive_pass, e)
          (empty, wait_to_receive-keeps.0, wait_to_receive-keeps.1, wait_to_receive-keeps.2))
    | inr (x, ys, front, item, q, e, same, is') ↦ inl (
      q,
      ys,
      rw (queue_receive_pass, e) refl,
      is',
      ap length front ∙ omega arith,
      dequeue-length item c.queue q e,
    )
  ]
