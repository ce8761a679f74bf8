-- ===== src/Vm.antt =====
-- kernel/vm: the virtual memory of a task.
pub mod Machine
pub mod PageRef
pub mod Range
pub mod Object
pub mod Map
pub mod Gap
pub mod Task
pub mod Life
pub mod Protect
pub mod Fault
pub mod View
pub mod Trim
pub mod Removal
pub mod Table
pub mod Full
pub mod Remove
pub mod Add
pub mod Mmap
pub mod Brk
pub mod Mprotect
pub mod Fork
pub mod Cow
pub mod Sharing
pub mod Exit
pub mod RefCounts
