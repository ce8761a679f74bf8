-- ===== src/Sched/State.antt =====
-- The threads, the queues that hold them, and the scheduler's variables. A thread or a wait queue
-- is named by its address, 0 for NULL; a TAILQ is the list of its threads, first to last.
use rodnix.Prelude.{ℕ, ℤ, Bool, List, [], ◌∷◌, ◌==◌, if◌then◌else◌}

-- `thread_state_t`.
pub data ThreadState : Type 0 where
  new ready running blocked sleeping dead : ThreadState

-- `sched_policy_t`.
pub data Policy : Type 0 where
  rr priority fifo cfs : Policy

-- SCHED_CLASS_TIMESHARE and SCHED_CLASS_REALTIME.
pub data SchedClass : Type 0 where
  timeshare realtime : SchedClass

-- `task_state_t`.
pub data TaskState : Type 0 where
  new_task ready_task running_task blocked_task sleeping_task zombie dead_task : TaskState

-- What scheduling reads and writes of a `task_t`.
pub record TaskInfo : Type 0 where
  pub state : TaskState
  pub cpu_ticks : ℕ
  pub last_run_tick : ℕ
  pub address_space : ℕ

-- The fields of `thread_t` that scheduling uses. The flags of the source, 0 or 1, are Booleans.
pub record Thread : Type 0 where
  pub task : ℕ
  pub state : ThreadState
  pub sched_class : SchedClass
  pub priority : ℕ
  pub base_priority : ℕ
  pub dyn_priority : ℤ
  pub inherited_priority : ℤ
  pub has_inherited : Bool
  pub inherit_stack : List ℤ
  pub has_inherit_overflow : Bool
  pub sched_bucket : ℕ
  pub sched_bucket_explicit : Bool
  pub sched_usage : ℕ
  pub last_sleep_tick : ℕ
  pub ready_queued : Bool
  pub waitq_owner : ℕ
  pub wait_deadline_tick : ℕ
  pub wait_timeout_armed : Bool
  pub wait_timed_out : Bool
  pub joiner : ℕ
  pub reap_queued : Bool
  pub reap_after_tick : ℕ
  pub stack : ℕ
  pub stack_size : ℕ
  pub stack_pointer : ℕ

-- `waitq_t`.
pub record WaitQ : Type 0 where
  pub threads : List ℕ
  pub count : ℕ

-- The globals of scheduler/state.c, switch.c, reaper.c and waitq.c, with the registers CR3 and the
-- RSP0 of the TSS.
pub record Sched : Type 0 where
  pub thread : ℕ → Thread
  pub waitq : ℕ → WaitQ
  pub task : ℕ → TaskInfo
  pub timeouts : List ℕ
  pub ready_queues : ℕ → List ℕ
  pub bucket_last_run : ℕ → ℕ
  pub current : ℕ
  pub policy : Policy
  pub initialized : Bool
  pub running : Bool
  pub in_scheduler : Bool
  pub resched_pending : Bool
  pub sched_ticks : ℕ
  pub ticks_per_slice : ℕ
  pub ticks_until_preempt : ℕ
  pub running_tasks : ℕ
  pub ready_tasks : ℕ
  pub blocked_tasks : ℕ
  pub total_tasks : ℕ
  pub total_switches : ℕ
  pub current_task : ℕ
  pub kernel_pml4 : ℕ
  pub cr3 : ℕ
  pub rsp0 : ℕ
  pub reap_queue : ℕ → ℕ
  pub reap_head : ℕ
  pub reap_tail : ℕ
  pub reap_enqueued : ℕ
  pub reap_hwm : ℕ

-- A write at one address.
abbrev pub put {ℓ} : {A : Type ℓ} → (ℕ → A) → ℕ → A → ℕ → A
put f p v q = if p == q then v else f q

abbrev pub set_thread : Sched → ℕ → Thread → Sched
set_thread s t v = record s { thread = put s.thread t v }

abbrev pub set_task : Sched → ℕ → TaskInfo → Sched
set_task s t v = record s { task = put s.task t v }

abbrev pub set_waitq : Sched → ℕ → WaitQ → Sched
set_waitq s q v = record s { waitq = put s.waitq q v }

-- TAILQ_REMOVE: the list without the thread.
abbrev pub unlink : ℕ → List ℕ → List ℕ
unlink t [] = []
unlink t (x ∷ xs) = if x == t then xs else x ∷ unlink t xs

-- SCHED_BUCKET_BACKGROUND to SCHED_BUCKET_INTERACTIVE, and SCHED_BUCKET_COUNT.
abbrev pub background : ℕ
background = 0

abbrev pub utility : ℕ
utility = 1

abbrev pub default_bucket : ℕ
default_bucket = 2

abbrev pub interactive : ℕ
interactive = 3

abbrev pub bucket_count : ℕ
bucket_count = 4
