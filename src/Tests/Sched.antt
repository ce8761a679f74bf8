-- ===== src/Tests/Sched.antt =====
-- The scheduler and the wait queues on concrete inputs.
use rodnix.Prelude.{
  ℕ, ◌≢◌, Option, none, some, List, ◌≡◌, ◌↔◌, refl, true, false, [], pos, ◌∷◌, arith, ◌==◌,
  if◌then◌else◌,
}
use rodnix.Sched.State.{
  Thread, ready, running, blocked, dead, timeshare, Sched, running_task, priority, rr,
}
use rodnix.Sched.RunQueue.{
  ready_dequeue, ready_enqueue, ready_queue_index, ready_thread_is_queued, dequeue_from, chosen,
  starving, thread_effective_priority,
}
use rodnix.Sched.Control.{wake, set_policy, inherit_priority, clear_inherit}
use rodnix.Sched.WaitQ.{wake_all, tick}
use rodnix.Sched.Ready.{IsReady, occurs, due}
use rodnix.Sched.Dispatch.{ready_dequeue-conserves, ready_dequeue-order}
use rodnix.Sched.Stranding.{ready_calls, set_policy-strands}
use rodnix.Sched.Wake.{wake-IsReady}
use rodnix.Sched.Priority.{nested_inherit-drops}
use rodnix.Sched.Timeouts.{Expired, tick-expires}
use rodnix.Sched.Reaper.{IsRing}
use rodnix.Sched.Switch.{switch_from_irq}
use rodnix.Sched.Handover.{EndsWell, switch_from_irq-EndsWell}
use rodnix.Sched.Waiting.{IsWaiting, waits, wake_all-empties}

abbrev idle : Thread
idle = record {
  task = 0;
  state = running;
  sched_class = timeshare;
  priority = 128;
  base_priority = 128;
  dyn_priority = pos 128;
  inherited_priority = pos 128;
  has_inherited = false;
  inherit_stack = [];
  has_inherit_overflow = false;
  sched_bucket = 2;
  sched_bucket_explicit = false;
  sched_usage = 0;
  last_sleep_tick = 0;
  ready_queued = false;
  waitq_owner = 0;
  wait_deadline_tick = 0;
  wait_timeout_armed = false;
  wait_timed_out = false;
  joiner = 0;
  reap_queued = false;
  reap_after_tick = 0;
  stack = 0x9000;
  stack_size = 0x4000;
  stack_pointer = 0xA000;
}

-- Ready in the background and in the interactive bucket; the third has inherited a priority; the
-- fourth and the fifth sleep in queue 9, the fourth with a deadline; the last is dead.
abbrev thread_at : ℕ → Thread
thread_at t =
    if t == 1
    then record idle { state = ready; sched_bucket = 0; ready_queued = true }
    else if t == 2
    then record idle { state = ready; sched_bucket = 3; ready_queued = true }
    else if t == 3
    then record idle { has_inherited = true; inherited_priority = pos 200 }
    else if t == 4
    then record idle {
      state = blocked;
      waitq_owner = 9;
      wait_timeout_armed = true;
      wait_deadline_tick = 600;
    }
    else if t == 5
    then record idle { state = blocked; waitq_owner = 9 }
    else if t == 6
    then record idle { state = dead }
    else idle

abbrev sleeper : ℕ
sleeper = 4

abbrev pub sample : Sched
sample = record {
  thread = thread_at;
  waitq = λ q.
      if q == 9
      then record { threads = 4 ∷ 5 ∷ []; count = 2 }
      else record { threads = []; count = 0 };
  task = λ _. record { state = running_task; cpu_ticks = 0; last_run_tick = 0; address_space = 0 };
  timeouts = 4 ∷ [];
  ready_queues = λ q. if q == 0 then 1 ∷ [] else if q == 3 then 2 ∷ [] else [];
  bucket_last_run = λ q. if q == 0 then 20 else 550;
  current = 3;
  policy = priority;
  initialized = true;
  running = true;
  in_scheduler = false;
  resched_pending = false;
  sched_ticks = 560;
  ticks_per_slice = 1;
  ticks_until_preempt = 1;
  running_tasks = 1;
  ready_tasks = 2;
  blocked_tasks = 2;
  total_tasks = 6;
  total_switches = 1;
  current_task = 0;
  kernel_pml4 = 0x1000;
  cr3 = 0x1000;
  rsp0 = 0;
  reap_queue = λ _. 0;
  reap_head = 63;
  reap_tail = 63;
  reap_enqueued = 63;
  reap_hwm = 1;
}

sample-IsReady : IsReady sample
unfolding occurs due
sample-IsReady = record { once = λ t. ground arith; counted = refl }

sample-IsWaiting : IsWaiting sample
unfolding occurs waits
sample-IsWaiting = record { member = λ q t h. ground (arith, h); counted = λ q h. ground arith }

-- The background bucket starves, so its thread runs before the interactive one.
starved_first : (ready_dequeue sample).0 ≡ 1
unfolding ready_dequeue dequeue_from chosen starving
starved_first = refl

ready_dequeue-order_example : starving sample 0 ≡ true
ready_dequeue-order_example =
    ready_dequeue-order sample 0 3 sample-IsReady refl (omega arith) (omega arith) refl
      (unfold ready_dequeue dequeue_from chosen starving occurs in omega arith)

ready_dequeue-conserves_example : ((ready_dequeue sample).0 ≡ 0) ↔ (sample.ready_tasks ≡ 0)
ready_dequeue-conserves_example = ready_dequeue-conserves sample sample-IsReady refl

-- The fourth thread is queued and taken; the first two stay.
abbrev later : List (Option ℕ)
later = some 4 ∷ none ∷ none ∷ []

set_policy-strands_example :
    ((ready_dequeue (ready_calls later (set_policy sample rr))).0 ≡ 0)
    × ((ready_calls later (set_policy sample rr)).ready_tasks ≡ 2)
    × ((q : ℕ)
        → q ≢ 2
        → (ready_calls later (set_policy sample rr)).ready_queues q ≡ sample.ready_queues q)
set_policy-strands_example = set_policy-strands sample rr later sample-IsReady refl (
    unfold ready_calls ready_dequeue dequeue_from ready_enqueue ready_queue_index
      ready_thread_is_queued set_policy in
    refl)

wake-IsReady_example : IsReady (wake sample 4)
wake-IsReady_example = wake-IsReady sample 4 sample-IsReady

nested_inherit-drops_example :
    (thread_effective_priority sample 3 ≡ pos 200)
    × (thread_effective_priority (clear_inherit (inherit_priority sample 3 2) 3) 3 ≡ pos 128)
nested_inherit-drops_example =
    nested_inherit-drops sample 3 2 200 128 (omega arith) (omega arith) (omega arith) refl
      (omega arith) refl refl refl (omega arith)

tick-expires_example : Expired (tick sample 600) 4
tick-expires_example =
    tick-expires sample 600 4 (omega arith) (unfold occurs in omega arith) refl (omega arith)
      (omega arith)

wake_all-empties_example :
    ((wake_all 2 sample 9).0 ≡ 2)
    × (((wake_all 2 sample 9).1.waitq 9).threads ≡ [])
    × IsWaiting (wake_all 2 sample 9).1
wake_all-empties_example = wake_all-empties 2 sample 9 sample-IsWaiting (omega arith) (omega arith)

abbrev dead_thread : ℕ
dead_thread = 6

abbrev sample-IsRing : IsRing sample
sample-IsRing = record { head = omega arith; tail = omega arith }

-- The sample at a timer interrupt that asks for a switch.
abbrev interrupted : Sched
interrupted = record sample { resched_pending = true }

interrupted-IsReady : IsReady interrupted
unfolding occurs due
interrupted-IsReady = record { once = λ t. ground arith; counted = refl }

switch_from_irq-EndsWell_example : EndsWell 3 (switch_from_irq interrupted 0xB000)
switch_from_irq-EndsWell_example =
    switch_from_irq-EndsWell interrupted 0xB000 interrupted-IsReady refl (omega arith) refl refl
