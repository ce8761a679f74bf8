-- ===== src/Sched/Switch.antt =====
-- kernel/common/scheduler/switch.c: the switch of threads at the end of a timer interrupt.
use rodnix.Prelude.{ℕ, Bool, true, false, some, none, ◌==◌, ◌||◌, not, if◌then◌else◌, add64, sub64}
use rodnix.Sched.State.{
  ThreadState, new, ready, running, blocked, sleeping, dead, Sched, set_thread,
}
use rodnix.Sched.RunQueue.{ready_enqueue, ready_dequeue, reset_timeslice}
use rodnix.Sched.Control.{set_state}
use rodnix.Sched.Reaper.{reap_enqueue}

-- scheduler_switch_address_space.
unfoldable pub switch_address_space : Sched → ℕ → Sched
switch_address_space s next =
    let kernel = if s.kernel_pml4 == 0 then s.cr3 else s.kernel_pml4 in
    let p = (s.thread next).task in
    let space = (s.task p).address_space in
    let target = if (p == 0) || (space == 0) then kernel else space in
    let cr3' = if (next == 0) || (target == 0) then s.cr3 else target in
    record s { kernel_pml4 = kernel; cr3 = cr3' }

-- scheduler_update_tss.
unfoldable pub update_tss : Sched → ℕ → Sched
update_tss s t =
    let th = s.thread t in
    if (t == 0) || (th.stack == 0) || (th.stack_size == 0)
    then s
    else record s { rsp0 = sub64 (add64 th.stack th.stack_size) 16 }

-- What both kinds of switch do to make a thread the current one.
unfoldable pub activate : Sched → ℕ → Sched
activate s t =
    let p = (s.thread t).task in
    let s1 = record s { current = t; current_task = if p == 0 then s.current_task else p } in
    let s2 = update_tss (switch_address_space s1 t) t in
    record s2 { running_tasks = 1; total_switches = add64 s2.total_switches 1 }

-- How the interrupt ends: on the frame it came with, on the stack of another thread, or in a panic.
pub data Switched : Type 0 where
  same : Sched → Switched
  resume : ℕ → Sched → Switched
  panic : Switched

abbrev pub is_running : ThreadState → Bool
is_running running = true
is_running new = false
is_running ready = false
is_running blocked = false
is_running sleeping = false
is_running dead = false

abbrev pub is_dead : ThreadState → Bool
is_dead dead = true
is_dead new = false
is_dead ready = false
is_dead running = false
is_dead blocked = false
is_dead sleeping = false

-- The last two steps of a switch: the new thread is RUNNING, with a fresh slice.
unfoldable pub start_running : Sched → ℕ → Sched
start_running s t = reset_timeslice (set_state s t running) t

-- The first switch, with no current thread.
unfoldable pub switch_first : Sched → Switched
switch_first s =
    let (first, s1) = ready_dequeue s in
    if first == 0 then panic else resume first (start_running (activate s1 first) first)

-- `switch_prev_ready`.
unfoldable pub prev_ready : Sched → ℕ → Sched
prev_ready s prev = if is_running (s.thread prev).state then set_state s prev ready else s

-- The last steps of a switch from `prev` to `next`.
unfoldable pub finish_switch : Sched → ℕ → ℕ → Switched
finish_switch s prev next =
    let s1 = activate s next in
    let s2 = prev_ready s1 prev in
    let reaped = if is_dead (s2.thread prev).state then reap_enqueue s2 prev else some s2 in
    elim reaped [ none ↦ panic | some s3 ↦ resume next (start_running s3 next) ]

-- The interrupted thread, with its stack saved; back in a ready queue if it was running.
unfoldable pub preempt : Sched → ℕ → ℕ → Sched
preempt s cur frame =
    let s1 = set_thread s cur (record (s.thread cur) { stack_pointer = frame }) in
    if is_running (s.thread cur).state then ready_enqueue (set_state s1 cur ready) cur else s1

-- `switch_continue_current`.
unfoldable pub continue_current : Sched → ℕ → Sched
continue_current s cur = set_state s cur running

-- The switch with a current thread.
unfoldable pub switch_next : Sched → ℕ → ℕ → Switched
switch_next s cur frame =
    let (next, s2) = ready_dequeue (preempt s cur frame) in
    if (next == 0) || (next == cur)
    then (if is_dead (s2.thread cur).state then panic else same (continue_current s2 cur))
    else finish_switch s2 cur next

-- scheduler_switch_from_irq.
unfoldable pub switch_from_irq : Sched → ℕ → Switched
switch_from_irq s frame =
    let cur = s.current in
    let s1 = record s { resched_pending = false } in
    if not s.running || (frame == 0) || s.in_scheduler
    then same s
    else if cur == 0
    then switch_first s1
    else if s.resched_pending
    then switch_next s1 cur frame
    else same s
