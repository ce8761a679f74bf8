-- ===== src/Sched.antt =====
-- kernel/common/scheduler and kernel/common/waitq.c: threads, ready queues and wait queues.
pub mod State
pub mod RunQueue
pub mod Control
pub mod WaitQ
pub mod Tick
pub mod Reaper
pub mod Switch
pub mod Ready
pub mod Dispatch
pub mod Stranding
pub mod Wake
pub mod Priority
pub mod Frame
pub mod Timeouts
pub mod Waiting
pub mod Handover
