-- ===== src/Sched/Control.antt =====
-- kernel/common/scheduler/control.c and state.c: the states of threads and their priorities.
use rodnix.Prelude.{
  ℕ, ◌+◌, ◌-◌, ◌/◌, ℤ, pos, Bool, true, false, List, [], ◌∷◌, ◌==◌, ltb, leb, ltb_ℤ, to_int, ◌+ℤ◌,
  ◌&&◌, ◌||◌, not, if◌then◌else◌, sub64, length,
}
use rodnix.Sched.State.{
  ThreadState, new, ready, running, blocked, sleeping, dead, TaskState, new_task, ready_task,
  running_task, blocked_task, sleeping_task, zombie, dead_task, Policy, timeshare, realtime, Thread,
  Sched, set_thread, set_task, default_bucket, bucket_count,
}
use rodnix.Sched.RunQueue.{
  clamp_dyn_priority, thread_effective_priority, ready_thread_is_queued, ready_enqueue,
}

-- scheduler_thread_set_state: a transition that is not valid is only logged.
abbrev pub set_state : Sched → ℕ → ThreadState → Sched
set_state s t st = if t == 0 then s else set_thread s t (record (s.thread t) { state = st })

abbrev pub task_set_state : Sched → ℕ → TaskState → Sched
task_set_state s p st = if p == 0 then s else set_task s p (record (s.task p) { state = st })

-- scheduler_add_thread.
unfoldable pub add_thread : Sched → ℕ → Bool × Sched
add_thread s t =
    let th = s.thread t in
    let th' = record th {
      state = ready;
      base_priority = th.priority;
      dyn_priority = pos th.priority;
      inherited_priority = pos th.priority;
      has_inherited = false;
      sched_bucket = if th.sched_bucket_explicit then th.sched_bucket else default_bucket;
    } in
    let s' = ready_enqueue (set_thread s t th') t in
    if t == 0 then (false, s) else (true, record s' { total_tasks = s'.total_tasks + 1 })

-- The boost of a thread that slept; BOOST_THRESHOLD_TICKS is 5 and BOOST_MAX is 32.
unfoldable pub boosted : Sched → Thread → ℤ
boosted s th =
    let sleep_ticks = sub64 s.sched_ticks th.last_sleep_tick in
    let n = to_int (sleep_ticks / 5) in
    let boost = if ltb_ℤ (pos 32) n then pos 32 else n in
    elim th.sched_class [
      | realtime ↦ th.dyn_priority
      | timeshare ↦
          if leb 5 sleep_ticks
          then clamp_dyn_priority (th.dyn_priority +ℤ boost) (pos th.base_priority)
          else th.dyn_priority
    ]

-- The wake-up of a blocked thread, up to the request to reschedule.
unfoldable pub wake_blocked : Sched → ℕ → Sched
wake_blocked s t =
    let th = s.thread t in
    let th' = record th { state = ready; dyn_priority = boosted s th } in
    ready_enqueue (record (set_thread s t th') { blocked_tasks = s.blocked_tasks - 1 }) t

-- scheduler_unblock.
unfoldable pub unblock : Sched → ℕ → Sched
unblock s t =
    let woken = wake_blocked s t in
    if t == 0 then s else elim (s.thread t).state [
      | blocked ↦ woken
      | new ↦ s
      | ready ↦ s
      | running ↦ s
      | sleeping ↦ s
      | dead ↦ s
    ]

-- The two other branches of scheduler_wake.
abbrev pub wake_other : Sched → ℕ → Sched
wake_other s t = record (ready_enqueue (set_state s t ready) t) { resched_pending = true }

abbrev pub wake_ready : Sched → ℕ → Sched
wake_ready s t =
    let queued = record (ready_enqueue s t) { resched_pending = true } in
    if not (ready_thread_is_queued s t) && not (t == s.current) then queued else s

-- scheduler_wake.
unfoldable pub wake : Sched → ℕ → Sched
wake s t = if t == 0 then s else elim (s.thread t).state [
  | blocked ↦ record (wake_blocked s t) { resched_pending = true }
  | ready ↦ wake_ready s t
  | new ↦ wake_other s t
  | running ↦ wake_other s t
  | sleeping ↦ wake_other s t
  | dead ↦ wake_other s t
]

-- scheduler_block.
unfoldable pub block : Sched → Sched
block s =
    let cur = s.current in
    let th' = record (s.thread cur) { state = blocked; last_sleep_tick = s.sched_ticks } in
    if (cur == 0) || s.in_scheduler then s else record (set_thread s cur th') {
      blocked_tasks = s.blocked_tasks + 1;
      resched_pending = true;
    }

-- scheduler_yield.
unfoldable pub yield : Sched → Sched
yield s = if s.running then record s { resched_pending = true } else s

-- scheduler_exit_wake_joiner.
unfoldable pub exit_wake_joiner : Sched → ℕ → Sched
exit_wake_joiner s t =
    let j = (s.thread t).joiner in
    let s1 = set_thread s t (record (s.thread t) { joiner = 0 }) in
    let th' = record (s1.thread j) {
      priority = 220;
      base_priority = 220;
      dyn_priority = pos 220;
      inherited_priority = pos 220;
      has_inherited = false;
    } in
    if (t == 0) || (j == 0) then s else wake (set_thread s1 j th') j

abbrev pub is_dead_task : TaskState → Bool
is_dead_task dead_task = true
is_dead_task new_task = false
is_dead_task ready_task = false
is_dead_task running_task = false
is_dead_task blocked_task = false
is_dead_task sleeping_task = false
is_dead_task zombie = false

-- scheduler_exit_current, up to the interrupt from which it does not return.
unfoldable pub exit_current : Sched → Sched
exit_current s =
    let cur = s.current in
    let s1 = set_state (exit_wake_joiner s cur) cur dead in
    let p = (s1.thread cur).task in
    let s2 =
      if (p == 0) || is_dead_task (s1.task p).state then s1 else task_set_state s1 p zombie in
    if cur == 0 then s else record s2 { resched_pending = true }

-- scheduler_set_priority.
unfoldable pub set_priority : Sched → ℕ → ℕ → Sched
set_priority s t p =
    let th = s.thread t in
    let raise = th.has_inherited && ltb_ℤ th.inherited_priority (pos p) in
    let th' = record th {
      priority = p;
      base_priority = p;
      dyn_priority = pos p;
      inherited_priority = if raise then pos p else th.inherited_priority;
    } in
    if t == 0 then s else set_thread s t th'

-- scheduler_inherit_priority; `inherit_stack` holds the last saved priority first.
unfoldable pub inherit_priority : Sched → ℕ → ℕ → Sched
inherit_priority s target donor =
    let donor_prio = thread_effective_priority s donor in
    let th = s.thread target in
    let room = ltb (length th.inherit_stack) 8 in
    let takes = not th.has_inherited || ltb_ℤ th.inherited_priority donor_prio in
    let th' = record th {
      inherit_stack = if room then th.inherited_priority ∷ th.inherit_stack else th.inherit_stack;
      has_inherit_overflow = if room then th.has_inherit_overflow else true;
      inherited_priority = if takes then donor_prio else th.inherited_priority;
      has_inherited = if takes then true else th.has_inherited;
    } in
    if (target == 0) || (donor == 0) then s else set_thread s target th'

-- The priority that scheduler_clear_inherit restores, and the stack that it leaves.
unfoldable pub restored : Thread → ℤ × List ℤ
restored th =
    if th.has_inherit_overflow
    then (pos th.base_priority, [])
    else elim th.inherit_stack [ [] ↦ (th.dyn_priority, []) | p ∷ ps ↦ (p, ps) ]

-- scheduler_clear_inherit.
unfoldable pub clear_inherit : Sched → ℕ → Sched
clear_inherit s t =
    let th = s.thread t in
    let (p, stack) = restored th in
    let th' = record th {
      inherited_priority = p;
      inherit_stack = stack;
      has_inherit_overflow = false;
      has_inherited = false;
    } in
    if t == 0 then s else set_thread s t th'

-- scheduler_set_bucket.
unfoldable pub set_bucket : Sched → ℕ → ℕ → Sched
set_bucket s t b =
    if (t == 0) || leb bucket_count b
    then s
    else set_thread s t (record (s.thread t) { sched_bucket = b; sched_bucket_explicit = true })

-- scheduler_set_policy.
unfoldable pub set_policy : Sched → Policy → Sched
set_policy s p = record s { policy = p }

-- scheduler_add_task.
unfoldable pub add_task : Sched → ℕ → Bool × Sched
add_task s p = if p == 0 then (false, s) else (true, record s { total_tasks = s.total_tasks + 1 })
