-- ===== src/Sched/Frame.antt =====
-- What a wake-up leaves alone: the wait queues and what a thread knows of its wait.
use rodnix.Prelude.{ℕ, ◌≡◌, arith}
use rodnix.Sched.State.{Sched}
use rodnix.Sched.RunQueue.{ready_enqueue}
use rodnix.Sched.Control.{wake, wake_blocked}
use rodnix.Sched.Wake.{wake-cases}

pub record Frame (s s' : Sched) : Type 0 where
  pub waitq : s'.waitq ≡ s.waitq
  pub timeouts : s'.timeouts ≡ s.timeouts
  pub current : s'.current ≡ s.current
  pub owner : (u : ℕ) → (s'.thread u).waitq_owner ≡ (s.thread u).waitq_owner
  pub armed : (u : ℕ) → (s'.thread u).wait_timeout_armed ≡ (s.thread u).wait_timeout_armed
  pub deadline : (u : ℕ) → (s'.thread u).wait_deadline_tick ≡ (s.thread u).wait_deadline_tick
  pub timed_out : (u : ℕ) → (s'.thread u).wait_timed_out ≡ (s.thread u).wait_timed_out

pub wake-Frame : (s : Sched) (t : ℕ) → Frame s (wake s t)
unfolding wake_blocked ready_enqueue
wake-Frame s t =
    wake-cases (Frame s) s t (ground arith) (ground arith) (ground arith) (ground arith)
