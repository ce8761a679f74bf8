-- ===== src/Sched/Wake.antt =====
-- Blocking and waking: what scheduler_block, scheduler_wake and scheduler_unblock do to the
-- thread and to the ready queues.
use rodnix.Prelude.{
  ap, ℕ, ◌≡◌, ◌≢◌, refl, sym, ◌∙◌, Bool, true, false, ◌==◌, if◌then◌else◌, length, Bool-cases, inl,
  inr, arith,
}
use rodnix.Sched.State.{
  ThreadState, new, ready, running, blocked, sleeping, dead, Thread, Sched, set_thread,
}
use rodnix.Sched.RunQueue.{ready_enqueue, ready_thread_is_queued}
use rodnix.Sched.Control.{wake, wake_ready, wake_other, wake_blocked, block, set_state}
use rodnix.Sched.Ready.{IsReady, occurs, due, sum, ready_enqueue-IsReady}

-- What only touches other fields keeps the queues, the flags and the count in step.
pub same_flags :
    (s s' : Sched)
    → s'.ready_queues ≡ s.ready_queues
    → s'.ready_tasks ≡ s.ready_tasks
    → ((t : ℕ) → due s' t ≡ due s t)
    → IsReady s
    → IsReady s'
same_flags s s' q n d w = record {
  once = λ t. ap (sum (occurs t)) q ∙ w.once t ∙ sym (d t);
  counted = ap (sum length) q ∙ w.counted ∙ sym n;
}

-- A thread that is written with the flag it had.
set_thread-IsReady :
    (s : Sched) (t : ℕ) (th : Thread)
    → th.ready_queued ≡ (s.thread t).ready_queued
    → IsReady s
    → IsReady (set_thread s t th)
unfolding due
set_thread-IsReady s t th h w =
    same_flags s (set_thread s t th) refl refl (λ u. ground (arith, h)) w

-- scheduler_block keeps the queues, the flags and the count in step.
block-IsReady : (s : Sched) → IsReady s → IsReady (block s)
unfolding block due
block-IsReady s w = same_flags s (block s) (ground arith) (ground arith) (λ u. ground arith) w

wake_blocked-IsReady : (s : Sched) (t : ℕ) → IsReady s → IsReady (wake_blocked s t)
unfolding wake_blocked due
wake_blocked-IsReady s t w =
    ready_enqueue-IsReady _ t (same_flags s _ refl refl (λ u. ground arith) w)

set_state-IsReady : (s : Sched) (t : ℕ) → IsReady s → IsReady (set_state s t ready)
unfolding due
set_state-IsReady s t w = same_flags s _ (ground arith) (ground arith) (λ u. ground arith) w

pub resched-IsReady : (s : Sched) → IsReady s → IsReady (record s { resched_pending = true })
unfolding due
resched-IsReady s w = same_flags s _ refl refl (λ u. refl) w

-- The branches of scheduler_wake.
pub wake-cases :
    (P : Sched → Type 0) (s : Sched) (t : ℕ)
    → P s
    → P (record (wake_blocked s t) { resched_pending = true })
    → P (record (ready_enqueue (set_state s t ready) t) { resched_pending = true })
    → P (record (ready_enqueue s t) { resched_pending = true })
    → P (wake s t)
unfolding wake
wake-cases P s t a b c d = elim (Bool-cases (t == 0)) [
  | inl z ↦ rw (z, wake) a
  | inr z ↦ rw (z, wake) (by_state (s.thread t).state)
]
  where
    rest : Bool → Sched
    rest x = if x then record (ready_enqueue s t) { resched_pending = true } else s

    by_rest : (x : Bool) → P (rest x)
    by_rest true = d
    by_rest false = a

    by_state :
        (st : ThreadState)
        → P (elim st as (λ _. Sched) [
          | blocked ↦ record (wake_blocked s t) { resched_pending = true }
          | ready ↦ wake_ready s t
          | new ↦ wake_other s t
          | running ↦ wake_other s t
          | sleeping ↦ wake_other s t
          | dead ↦ wake_other s t
        ])
    by_state blocked = b
    by_state ready = by_rest _
    by_state new = c
    by_state running = c
    by_state sleeping = c
    by_state dead = c

-- scheduler_wake keeps the queues, the flags and the count in step, whatever state the thread is
-- in: no thread enters a queue twice.
pub wake-IsReady : (s : Sched) (t : ℕ) → IsReady s → IsReady (wake s t)
wake-IsReady s t w =
    wake-cases IsReady s t w (resched-IsReady _ (wake_blocked-IsReady s t w))
      (resched-IsReady _ (ready_enqueue-IsReady _ t (set_state-IsReady s t w)))
      (resched-IsReady _ (ready_enqueue-IsReady s t w))

-- scheduler_wake of a thread, in any state, that is not the current one: afterwards the thread is
-- READY and stands in a ready queue. A DEAD thread is no exception.
pub wake-queues :
    (s : Sched) (t : ℕ)
    → t ≢ 0
    → t ≢ s.current
    → (((wake s t).thread t).state ≡ ready) × (((wake s t).thread t).ready_queued ≡ true)
unfolding wake wake_blocked ready_enqueue ready_thread_is_queued
wake-queues s t h h' = ground arith
