-- ===== src/Sched/RunQueue.antt =====
-- kernel/common/scheduler/runqueue.c: the ready queues, one per QoS bucket.
use rodnix.Prelude.{
  ℕ, ◌+◌, ◌-◌, ◌*◌, ◌%◌, ◌^◌, ℤ, pos, Bool, true, false, Option, some, none, List, [], ◌∷◌, ◌++◌,
  ◌==◌, leb, ltb_ℤ, ◌+ℤ◌, ◌-ℤ◌, ◌&&◌, ◌||◌, not, if◌then◌else◌, sub64,
}
use rodnix.Sched.State.{
  Policy, rr, priority, fifo, cfs, timeshare, realtime, Sched, put, set_thread, background, utility,
  default_bucket, interactive, bucket_count,
}

-- clamp_dyn_priority; PENALTY_MAX and BOOST_MAX are 32.
unfoldable pub clamp_dyn_priority : ℤ → ℤ → ℤ
clamp_dyn_priority value base =
    let min = base -ℤ pos 32 in
    let max = base +ℤ pos 32 in
    let v1 = if ltb_ℤ value min then min else value in
    let v2 = if ltb_ℤ max v1 then max else v1 in
    let v3 = if ltb_ℤ v2 (pos 0) then pos 0 else v2 in if ltb_ℤ (pos 255) v3 then pos 255 else v3

-- thread_effective_priority; 128 is SCHEDULER_DEFAULT_PRIORITY.
unfoldable pub thread_effective_priority : Sched → ℕ → ℤ
thread_effective_priority s t =
    let th = s.thread t in
    let dyn = if ltb_ℤ th.dyn_priority (pos 0) then pos 0 else th.dyn_priority in
    if t == 0
    then pos 128
    else if (th.base_priority == 0) && not (th.priority == 0)
    then pos th.priority
    else if th.has_inherited && ltb_ℤ dyn th.inherited_priority
    then th.inherited_priority
    else dyn

-- `bucket_mult`, with the bucket out of range read as the default one.
abbrev pub bucket_mult : ℕ → ℕ
bucket_mult b =
    if b == background then 8 else if b == utility then 4 else if b == interactive then 1 else 2

-- The slice of a thread that is not real time: a 32-bit product.
unfoldable pub timeslice : Sched → ℕ → ℕ
timeslice s bucket =
    let base = if s.ticks_per_slice == 0 then 1 else s.ticks_per_slice in
    let ticks = base * bucket_mult bucket % 2 ^ 32 in if ticks == 0 then 1 else ticks

-- scheduler_reset_timeslice.
unfoldable pub reset_timeslice : Sched → ℕ → Sched
reset_timeslice s t =
    let th = s.thread t in
    let shared = timeslice s th.sched_bucket in
    if t == 0 then record s { ticks_until_preempt = s.ticks_per_slice } else elim th.sched_class [
      | realtime ↦ record s { ticks_until_preempt = 1 }
      | timeshare ↦ record s { ticks_until_preempt = shared }
    ]

-- ready_thread_is_queued.
unfoldable pub ready_thread_is_queued : Sched → ℕ → Bool
ready_thread_is_queued s t = not (t == 0) && (s.thread t).ready_queued

-- `current_policy == SCHED_POLICY_RR || current_policy == SCHED_POLICY_FIFO`.
abbrev pub single_queue : Policy → Bool
single_queue rr = true
single_queue fifo = true
single_queue priority = false
single_queue cfs = false

-- ready_queue_index_for_thread.
unfoldable pub ready_queue_index : Sched → ℕ → ℕ
ready_queue_index s t =
    if (t == 0) || single_queue s.policy
    then default_bucket
    else if leb bucket_count (s.thread t).sched_bucket
    then default_bucket
    else (s.thread t).sched_bucket

-- ready_enqueue.
unfoldable pub ready_enqueue : Sched → ℕ → Sched
ready_enqueue s t =
    let q = ready_queue_index s t in
    if (t == 0) || ready_thread_is_queued s t
    then s
    else record (set_thread s t (record (s.thread t) { ready_queued = true })) {
      ready_queues = put s.ready_queues q (s.ready_queues q ++ t ∷ []);
      ready_tasks = s.ready_tasks + 1;
    }

-- dequeue_from.
unfoldable pub dequeue_from : Sched → ℕ → ℕ × Sched
dequeue_from s q = elim (s.ready_queues q) [
  | [] ↦ (0, s)
  | t ∷ ts ↦ (
    t,
    record (set_thread s t (record (s.thread t) { ready_queued = false })) {
      ready_queues = put s.ready_queues q ts;
      ready_tasks = s.ready_tasks - 1;
      bucket_last_run = put s.bucket_last_run q s.sched_ticks;
    },
  )
]

abbrev pub is_empty : List ℕ → Bool
is_empty [] = true
is_empty (_ ∷ _) = false

-- The test for a starving bucket; 500 is STARVATION_THRESHOLD_TICKS.
unfoldable pub starving : Sched → ℕ → Bool
starving s b =
    not (is_empty (s.ready_queues b)) && leb 500 (sub64 s.sched_ticks (s.bucket_last_run b))

-- The queue from which ready_dequeue takes, none if all are empty.
unfoldable pub chosen : Sched → Option ℕ
chosen s =
    if starving s background
    then some background
    else if starving s utility
    then some utility
    else if starving s default_bucket
    then some default_bucket
    else if not (is_empty (s.ready_queues interactive))
    then some interactive
    else if not (is_empty (s.ready_queues default_bucket))
    then some default_bucket
    else if not (is_empty (s.ready_queues utility))
    then some utility
    else if not (is_empty (s.ready_queues background))
    then some background
    else none

-- ready_dequeue; the thread is 0 if there is none.
unfoldable pub ready_dequeue : Sched → ℕ × Sched
ready_dequeue s =
    if single_queue s.policy
    then dequeue_from s default_bucket
    else elim (chosen s) [ none ↦ (0, s) | some q ↦ dequeue_from s q ]
