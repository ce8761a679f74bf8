-- ===== src/Unix.antt =====
-- kernel/unix/fd/unix_fd.c: paths, pipes and file descriptors of processes.
pub mod Path
pub mod PathBounds
pub mod Pipe
pub mod PipeQueue
pub mod PipeLoops
pub mod Fd
pub mod Dup
pub mod Ends
pub mod EndsRelease
pub mod EndsDup
pub mod EndsClone
pub mod Calls
pub mod PipeLeak
pub mod Files
pub mod Poll
