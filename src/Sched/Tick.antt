-- ===== src/Sched/Tick.antt =====
-- kernel/common/scheduler/tick.c and state.c: the timer tick and the start of the scheduler.
use rodnix.Prelude.{
  ℕ, ◌-◌, ◌*◌, ◌/◌, ◌%◌, ◌^◌, ℤ, pos, true, false, [], ◌==◌, ltb, ◌-ℤ◌, if◌then◌else◌, add64, add32,
}
use rodnix.Sched.State.{
  new, ready, running, blocked, sleeping, dead, timeshare, realtime, Thread, Sched, set_thread,
  set_task, priority,
}
use rodnix.Sched.RunQueue.{clamp_dyn_priority}
use rodnix.Sched.WaitQ.{tick, init}

-- `sched_usage * 7 / 8 + 1` on 32 bits.
abbrev pub usage : Thread → ℕ
usage th = add32 (th.sched_usage * 7 % 2 ^ 32 / 8) 1

-- The accounting of the thread that runs; PENALTY_STEP_TICKS is 4.
unfoldable pub charge : Sched → ℕ → Sched
charge s t =
    let th = s.thread t in
    let u = usage th in
    let lowered = clamp_dyn_priority (th.dyn_priority -ℤ pos 1) (pos th.base_priority) in
    let dyn : ℤ = elim th.sched_class [
      | realtime ↦ th.dyn_priority
      | timeshare ↦ if u % 4 == 0 then lowered else th.dyn_priority
    ] in
    let g = s.task th.task in
    let g' = record g { cpu_ticks = add64 g.cpu_ticks 1; last_run_tick = s.sched_ticks } in
    let s' = if th.task == 0 then s else set_task s th.task g' in
    set_thread s' t (record th { sched_usage = u; dyn_priority = dyn })

-- The countdown of the slice.
unfoldable pub countdown : Sched → Sched
countdown s =
    let left = s.ticks_until_preempt - 1 in
    if left == 0
    then record s { ticks_until_preempt = s.ticks_per_slice; resched_pending = true }
    else record s { ticks_until_preempt = left }

-- scheduler_tick.
unfoldable pub scheduler_tick : Sched → Sched
scheduler_tick s =
    let now = add64 s.sched_ticks 1 in
    let s1 = tick (record s { sched_ticks = now }) now in
    let cur = s1.current in
    let charged = charge s1 cur in
    let s2 : Sched = if cur == 0 then s1 else elim (s1.thread cur).state [
      | running ↦ charged
      | new ↦ s1
      | ready ↦ s1
      | blocked ↦ s1
      | sleeping ↦ s1
      | dead ↦ s1
    ] in
    if s.running then countdown s2 else s

-- scheduler_set_tick_rate.
unfoldable pub set_tick_rate : Sched → ℕ → Sched
set_tick_rate s hz =
    let n = add32 (hz * 10 % 2 ^ 32) 999 / 1000 in
    let ticks = if n == 0 then 1 else n in
    let left = if ltb ticks s.ticks_until_preempt then ticks else s.ticks_until_preempt in
    if hz == 0 then s else record s { ticks_per_slice = ticks; ticks_until_preempt = left }

-- scheduler_init; `sleep_waitq` is the address of scheduler_sleep_waitq.
unfoldable pub scheduler_init : ℕ → Sched → Sched
scheduler_init sleep_waitq s =
    let fresh = record s {
      current = 0;
      policy = priority;
      running = false;
      ready_queues = λ _. [];
      bucket_last_run = λ _. 0;
      ticks_per_slice = 1;
      ticks_until_preempt = 1;
      resched_pending = false;
      sched_ticks = 0;
      running_tasks = 0;
      ready_tasks = 0;
      blocked_tasks = 0;
      initialized = true;
    } in
    if s.initialized then s else init fresh sleep_waitq
