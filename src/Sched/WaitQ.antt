-- ===== src/Sched/WaitQ.antt =====
-- kernel/common/waitq.c: queues of threads that wait, with deadlines.
use rodnix.Prelude.{
  ℕ, ◌+◌, ◌-◌, ◌/◌, suc, zero, Bool, true, false, Option, some, none, List, [], ◌∷◌, ◌++◌, ◌==◌,
  ltb, ◌&&◌, ◌||◌, not, if◌then◌else◌, add64, length, Status, ok, invalid, notfound, busy, timeout,
}
use rodnix.Sched.State.{WaitQ, Sched, set_thread, set_waitq, unlink}
use rodnix.Sched.Control.{wake, block}

-- waitq_init.
unfoldable pub init : Sched → ℕ → Sched
init s q = if q == 0 then s else set_waitq s q (record { threads = []; count = 0 })

-- waitq_contains.
unfoldable pub contains : Sched → ℕ → ℕ → Bool
contains s q t = if (q == 0) || (t == 0) then false else (s.thread t).waitq_owner == q

-- waitq_disarm_timeout.
unfoldable pub disarm_timeout : Sched → ℕ → Sched
disarm_timeout s t =
    let th = s.thread t in
    let th' = record th { wait_timeout_armed = false; wait_deadline_tick = 0 } in
    if (t == 0) || not th.wait_timeout_armed
    then s
    else record (set_thread s t th') { timeouts = unlink t s.timeouts }

-- waitq_arm_timeout.
unfoldable pub arm_timeout : Sched → ℕ → ℕ → Sched
arm_timeout s t deadline =
    let s1 = disarm_timeout s t in
    let th' = record (s1.thread t) { wait_deadline_tick = deadline; wait_timeout_armed = true } in
    if (t == 0) || (deadline == 0)
    then s
    else record (set_thread s1 t th') { timeouts = s1.timeouts ++ t ∷ [] }

-- waitq_deadline_from_timeout_ms; SCHEDULER_TIME_SLICE_MS is 10.
unfoldable pub deadline_from_timeout_ms : Sched → ℕ → ℕ
deadline_from_timeout_ms s ms =
    let n = add64 ms 9 / 10 in
    let ticks = if n == 0 then 1 else n in if ms == 0 then 0 else add64 s.sched_ticks ticks

-- waitq_enqueue.
unfoldable pub enqueue : Sched → ℕ → ℕ → Status × Sched
enqueue s q t =
    let wq = s.waitq q in
    let wq' : WaitQ = record { threads = wq.threads ++ t ∷ []; count = wq.count + 1 } in
    if (q == 0) || (t == 0)
    then (invalid, s)
    else if (s.thread t).waitq_owner == 0
    then (ok, set_waitq (set_thread s t (record (s.thread t) { waitq_owner = q })) q wq')
    else (busy, s)

-- The queue without a thread that leaves it: `if (q->count > 0) q->count--`.
abbrev pub leave : WaitQ → ℕ → WaitQ
leave wq t = record { threads = unlink t wq.threads; count = wq.count - 1 }

-- The tail that waitq_remove and waitq_dequeue share.
unfoldable pub take_out : Sched → ℕ → ℕ → Sched
take_out s q t =
    let th' = record (s.thread t) { waitq_owner = 0; wait_timed_out = false } in
    disarm_timeout (set_waitq (set_thread s t th') q (leave (s.waitq q) t)) t

-- waitq_remove.
unfoldable pub remove : Sched → ℕ → ℕ → Status × Sched
remove s q t =
    if (q == 0) || (t == 0)
    then (invalid, s)
    else if (s.thread t).waitq_owner == q
    then (ok, take_out s q t)
    else (notfound, s)

-- waitq_dequeue; the thread is 0 if there is none.
unfoldable pub dequeue : Sched → ℕ → ℕ × Sched
dequeue s q = elim (s.waitq q).threads [
  | [] ↦ (0, s)
  | t ∷ _ ↦ if q == 0 then (0, s) else (t, take_out s q t)
]

-- waitq_wake_one.
unfoldable pub wake_one : Sched → ℕ → ℕ × Sched
wake_one s q = let (t, s') = dequeue s q in if t == 0 then (0, s') else (t, wake s' t)

-- waitq_wake_all, with the rounds that are left: what it counts and the state.
unfoldable pub wake_all : ℕ → Sched → ℕ → ℕ × Sched
wake_all zero s q = (0, s)
wake_all (suc n) s q =
    let (t, s') = wake_one s q in
    let (woke, s'') = wake_all n s' q in if (q == 0) || (t == 0) then (0, s') else (woke + 1, s'')

-- waitq_count.
unfoldable pub count_of : Sched → ℕ → ℕ
count_of s q = if q == 0 then 0 else (s.waitq q).count

-- waitq_timed_count.
unfoldable pub timed_count : Sched → ℕ
timed_count s = length s.timeouts

-- waitq_wait_until before its loop.
unfoldable pub prepare_wait : Sched → ℕ → ℕ → Status × Sched
prepare_wait s q deadline =
    let self = s.current in
    let s1 = set_thread s self (record (s.thread self) { wait_timed_out = false }) in
    let (rc, s2) = if contains s1 q self then (ok, s1) else enqueue s1 q self in
    let armed = if deadline == 0 then s2 else arm_timeout s2 self deadline in
    if (q == 0) || (self == 0)
    then (invalid, s)
    else elim rc [ ok ↦ (ok, armed) | busy ↦ (ok, armed) | other ↦ (other, s2) ]

-- waitq_wait_until after its loop.
unfoldable pub finish_wait : Sched → ℕ → Status × Sched
finish_wait s self =
    let th = s.thread self in
    let rc = if th.wait_timed_out then timeout else ok in
    (rc, set_thread s self (record th { wait_timed_out = false }))

-- The loop of waitq_wait_until, with the rounds that are left; `dispatch` is what the other
-- threads and the timer do until this thread runs again, behind `int $32`.
unfoldable pub park : (Sched → Sched) → ℕ → Sched → ℕ → ℕ → Option Sched
park dispatch zero s q self = none
park dispatch (suc n) s q self =
    let rest = park dispatch n (dispatch (block s)) q self in
    if contains s q self then rest else some s

-- waitq_wait_until.
unfoldable pub wait_until : (Sched → Sched) → ℕ → Sched → ℕ → ℕ → Option (Status × Sched)
wait_until dispatch rounds s q deadline =
    let (rc, s') = prepare_wait s q deadline in
    elim rc [
      | ok ↦ elim (park dispatch rounds s' q s.current) [
        | none ↦ none
        | some s'' ↦ some (finish_wait s'' s.current)
      ]
      | other ↦ some (other, s')
    ]

-- waitq_wait.
unfoldable pub wait : (Sched → Sched) → ℕ → Sched → ℕ → ℕ → Option (Status × Sched)
wait dispatch rounds s q ms = wait_until dispatch rounds s q (deadline_from_timeout_ms s ms)

-- The end of a wait whose deadline has passed, up to the wake-up.
unfoldable pub unlink_expired : Sched → ℕ → Sched
unlink_expired s t =
    let owner = (s.thread t).waitq_owner in
    let s1 = set_thread s t (record (s.thread t) { wait_timed_out = true }) in
    let s2 = disarm_timeout s1 t in
    let s3 = set_thread s2 t (record (s2.thread t) { waitq_owner = 0 }) in
    let s4 = set_waitq s3 owner (leave (s3.waitq owner) t) in
    if not (owner == 0) && contains s2 owner t then s4 else s2

unfoldable pub expire : Sched → ℕ → Sched
expire s t = wake (unlink_expired s t) t

-- One round of waitq_tick.
unfoldable pub tick_one : Sched → ℕ → ℕ → Sched
tick_one s now t =
    let th = s.thread t in
    let stale = disarm_timeout s t in
    let expired = expire s t in
    if not th.wait_timeout_armed || (th.wait_deadline_tick == 0)
    then stale
    else if ltb now th.wait_deadline_tick
    then s
    else expired

-- waitq_tick: TAILQ_FOREACH_SAFE walks the list as it stands at the start.
unfoldable pub tick_from : ℕ → List ℕ → Sched → Sched
tick_from now [] s = s
tick_from now (t ∷ ts) s = tick_from now ts (tick_one s now t)

unfoldable pub tick : Sched → ℕ → Sched
tick s now = tick_from now s.timeouts s
