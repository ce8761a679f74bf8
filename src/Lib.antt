-- ===== src/Lib.antt =====
-- RodNIX is a 64-bit kernel in C with a Unix personality. The parts and how they meet:
--
-- - kernel/vm keeps the virtual memory of a task. vm_map.c holds the table of mappings and the
--   calls that change it (mmap, munmap, brk, mprotect, msync, fork, exec, exit), vm_object.c the
--   objects behind the mappings with their resident pages, vm_page_ref.c the reference counts of
--   physical pages, vm_pager.c zeroed pages, vm_fault.c the page-fault handler.
-- - kernel/common/scheduler and kernel/common/waitq.c keep threads: ready queues by QoS bucket,
--   dynamic and inherited priorities, the states of threads, wait queues and their timeouts. The
--   timer interrupt drives both; the calls of the other parts block and wake threads here.
-- - kernel/fs/vfs.c keeps the tree of files: path lookup with a cache, reference counts of nodes,
--   reading and writing. The system calls open, read, write, mkdir, unlink, rename end there.
-- - kernel/unix/fd/unix_fd.c keeps the descriptors of a process, its pipes and its paths, and hands
--   files to vfs.c.
-- - kernel/common/ipc.c keeps ports with queues of messages and sets of ports. A receiver waits in
--   the wait queue of the port, and lends its priority to the thread that owns the port.
-- - kernel/arch/x86_64/pmm.c hands out physical pages: a bitmap, free lists by zone, and the memory
--   map of the boot loader.
-- - The system calls of kernel/posix and kernel/unix, the network stack, the
--   drivers and the architectures call these.
--
-- Where a part is modelled:
--
-- - Prelude: numbers, Boolean tests, lists, integers, 64-bit and 32-bit words (Words), the status
--   codes of include/error.h (Codes).
-- - Vm.Machine: the interface to what kernel/vm calls in kernel/arch and kernel/common/heap.c: the
--   page tables, the page allocator, the kernel heap and the copies of bytes. Theorems hold for
--   every machine, and state what they need of it. Tests.Machine is one.
-- - Vm.PageRef: vm_page_ref.c and vm_pager.c, the list of nodes in its order.
-- - Vm.Object: vm_object.c. The objects are a store that a number, the address, looks up.
-- - Vm.Range, Vm.Map: the constants and helpers of vm_map.c, vm_map_lookup, vm_map_add and
--   vm_map_remove. A map is the list of its entries, `entry_count` its length.
-- - Vm.Gap: vm_find_gap. Vm.Task: the calls mmap, mmap_file, munmap and brk. Vm.Protect: mprotect
--   and msync. Vm.Life: exec, fork and exit. Vm.Fault: vm_fault_handle.
-- - Vm.View is the abstract map: what an address shows, a page of an object with its protection and
--   flags. The other modules below Vm hold theorems: Trim, Removal, Full, Remove (vm_map_remove),
--   Table (the invariant of the map), Add, Mmap, Brk, Mprotect, Fork, Cow, Sharing
--   (write faults after a fork), Exit, RefCounts.
-- - Sched.State: thread_t, waitq_t and the globals of the scheduler, as one record. Threads, tasks
--   and wait queues are named by their address, 0 for NULL; a TAILQ is the list of its threads.
-- - Sched.Switch: scheduler/switch.c, with the registers that it loads. Sched.Reaper: the ring of
--   scheduler/reaper.c.
-- - Sched.RunQueue: scheduler/runqueue.c. Sched.Control: scheduler/control.c, and the states,
--   threads and policies of scheduler/state.c. Sched.WaitQ: waitq.c. Sched.Tick: scheduler/tick.c
--   and scheduler_init.
-- - Sched.Ready (queues, flags and counts in step), Dispatch (which thread runs next),
--   Stranding (what a change of the policy leaves behind), Wake,
--   Priority, Frame (what a wake-up leaves alone), Timeouts, Waiting and Handover (who runs after a
--   switch) hold theorems.
-- - Fs.Host: the interface to what vfs.c calls: the kernel heap, the console, the block devices and
--   kernel/fs/ext2.c. Tests.Fs has one.
-- - Fs.Path: vfs_next_component; a C string is the list of its bytes before the NUL. Fs.Node: the
--   types of vfs.h and the globals, nodes named by their address. Fs.Lookup: vfs_lookup and its
--   cache, vfs_find_child, vfs_resolve_parent. Fs.Store: the life of nodes. Fs.File: growing and
--   resizing files, and their bytes. Fs.Io: vfs_read, vfs_write, vfs_seek. Fs.Names: vfs_mkdir,
--   vfs_unlink, vfs_rename, vfs_open, vfs_close, vfs_stat, vfs_truncate.
-- - Fs.Walk (paths as lists of names), Coherent and Changes (the cache), Capacity (the loop of
--   vfs_grow_file), Buffer, Contents, ReadBack and Resize (the bytes of files) hold theorems.
-- - Unix.Path: unix_path_normalize and unix_resolve_path of kernel/unix/fd/unix_fd.c. Unix.Pipe: its
--   pipes. Unix.Fd: the descriptor table of kernel/common/task.c and unix_fd_release; files and
--   pipes stand in a store by address. Unix.Dup: dup, dup2, dup3, close, spawn and exec. Unix.Calls:
--   pipe and fcntl. Unix.Files: the calls on files and paths, over the model of vfs.c. Unix.Poll:
--   unix_poll_one.
-- - Unix.PathBounds, PipeQueue and PipeLoops (a pipe as a queue), Ends, EndsRelease, EndsDup and
--   EndsClone (the counts of the ends of pipes) and PipeLeak hold theorems.
-- - Ipc.State: the types of ipc.h and the globals of kernel/common/ipc.c, each object named by its
--   address, with the interface to the kernel heap. Ipc.Queue: the message queues. Ipc.Port: ports
--   and their table. Ipc.Send: ipc_send. Ipc.Receive: ipc_receive and ipc_send_receive. Ipc.Set:
--   port sets. Refs, Pending, Delivery, Delivered, Members and Exhausted hold theorems.
-- - Pmm.State: the state of kernel/arch/x86_64/pmm.c, the bitmap as a Boolean for each page and the
--   memory by physical address. Pmm.Ranges: the free lists. Pmm.Bits: the bitmap, the marking of
--   ranges and pmm_rebuild_free_lists. Pmm.Alloc: allocation, release, reservation.
--   Pmm.Regions: what callers ask. Pmm.Init:
--   pmm_init and pmm_init_from_mmap.
-- - Pmm.Cover and Lists (free lists as sets of pages), Solid, Invariant (bitmap and free lists
--   agree), Taken, Run, Contiguous, Given, RoundTrip, Listing, Rebuild and
--   Reserve hold theorems.
-- - Tests: the models run on concrete inputs.
--
-- Numbers are natural numbers; what the source computes on uint64_t wraps by add64 and sub64, on
-- uint32_t by add32. The flags of a mapping are bit sets and are tested with has_bit. Priorities
-- are integers. A count of bytes that the source returns as `int` is converted by to_int.
--
-- Loops. Those over entries, nodes and threads recurse on the list. vm_find_gap has a round for
-- each page up to VM_USER_MAX and two more, enough since each round moves on by a page; its theorems
-- have no fuel. The loop of vm_task_destroy has a round for each entry,
-- since each round removes one. waitq_wake_all has a round for each thread that waits, for the same
-- reason. The loop of waitq_wait_until ends when another thread or the timer takes the thread off
-- the queue: `park` has rounds, and what the rest of the system does in a round is an argument.
-- The loops of vfs.c over a path have a round for each byte and one more, enough since each round
-- takes a byte. The loop of vfs_grow_file has rounds, since it need not end, and so has the walk of
-- vfs_is_ancestor_dir to the root. The loops of a pipe have rounds, since a reader or a writer
-- waits for the other end, and those of ipc_receive and port_set_receive, since a receiver waits
-- for a sender: what the others do meanwhile is an argument. None is a loop that has not ended in them.
--
-- Not modelled: log and trace calls, interrupt masking and spin locks (the kernel runs on one
-- processor, and an operation is one step of the model), the name of a wait queue, the release
-- of dead threads (in scheduler/reaper.c), mounting and start of the file systems, the oom counters
-- of kernel/core/memory.c, the page tables and the kernel heap (interfaces of their clients), and all other parts of the kernel, the drivers and the
-- user land.
pub mod Prelude
pub mod Vm
pub mod Sched
pub mod Fs
pub mod Unix
pub mod Ipc
pub mod Pmm
pub mod Tests
