-- ===== src/Unix/Calls.antt =====
-- System calls of kernel/unix/fd/unix_fd.c on descriptors and paths: pipe, fcntl, read, write, open,
-- mkdir, unlink, rmdir, rename and chdir. User memory is checked before; a path is what
-- unix_copy_user_cstr has copied.
use rodnix.Prelude.{
  ℕ, true, not, Option, none, some, List, ◌==◌, if◌then◌else◌, set, invalid, nomem, busy,
  unsupported, Result, done, fail,
}
use rodnix.Fs.Host.{Host}
use rodnix.Fs.Node.{put}
use rodnix.Unix.Path.{resolve_path}
use rodnix.Unix.Pipe.{Pipe, Kind, pipe_r, pipe_w}
use rodnix.Unix.Fd.{Slot, slot, Objects, fd_alloc, fd_release, kfree}
use rodnix.Unix.Dup.{in_use}
use rodnix.Vm.Map.{has_bit}

abbrev pub new_pipe : Pipe
new_pipe = record {
  magic = true;
  readers = 1;
  writers = 1;
  head = 0;
  tail = 0;
  count = 0;
  data_at = λ _. 0;
}

-- `task->fd_kind[fd] = kind`.
abbrev pub set_kind : List Slot → ℕ → Kind → List Slot
set_kind table fd kind = set table fd (record (slot table fd) { kind = kind })

-- unix_resolve_user_path into a buffer of UNIX_PATH_MAX bytes; none is a write past the end of a
-- buffer, and RDNX_E_INVALID stands for every failure.
abbrev pub user_path : List ℕ → List ℕ → Option (Result (List ℕ))
user_path cwd path = resolve_path cwd path 256

module _ (m : Host) (socket_close : m.State → ℕ → m.State) where
  -- unix_fs_pipe; 4120 is the size of a pipe.
  unfoldable pub fs_pipe : Objects m → List Slot → Result (ℕ × ℕ) × Objects m × List Slot
  fs_pipe k table =
      let (p, hw) = m.kmalloc k.world.hw 4120 in
      let k1 = record k { world = record (k.world) { hw = hw } } in
      let k2 = record k1 { pipes = put k.pipes p (some new_pipe) } in
      if p == 0 then (fail nomem, k1, table) else elim (fd_alloc table p) [
        | none ↦ (fail busy, kfree m socket_close k1 p, table)
        | some (fd_r, t1) ↦
            let t1' = set_kind t1 fd_r pipe_r in
            elim (fd_alloc t1' p) [
              | none ↦ let (k3, t3) = fd_release m socket_close k2 t1' fd_r in (fail busy, k3, t3)
              | some (fd_w, t2) ↦ (done (fd_r, fd_w), k2, set_kind t2 fd_w pipe_w)
            ]
      ]

  -- unix_fs_fcntl: F_GETFD is 1, F_SETFD is 2.
  unfoldable pub fcntl : List Slot → ℕ → ℕ → ℕ → Result ℕ × List Slot
  fcntl table fd cmd arg =
      let s = slot table fd in
      let odd = has_bit arg 1 in
      if not (in_use table fd)
      then (fail invalid, table)
      else if cmd == 1
      then (done (if s.cloexec then 1 else 0), table)
      else if cmd == 2
      then (done 0, set table fd (record s { cloexec = odd }))
      else (fail unsupported, table)
