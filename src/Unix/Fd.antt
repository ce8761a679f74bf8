-- ===== src/Unix/Fd.antt =====
-- The descriptor table of a task in kernel/common/task.c and its operations in
-- kernel/unix/fd/unix_fd.c. TASK_MAX_FD is 32.
use rodnix.Prelude.{
  ℕ, ◌+◌, Bool, false, Option, none, some, List, [], ◌∷◌, ◌==◌, if◌then◌else◌, get_or, set, invalid,
  nomem, unsupported, Result, done, fail,
}
use rodnix.Fs.Host.{Host}
use rodnix.Fs.Node.{File, put}
use rodnix.Fs.Store.{World}
use rodnix.Fs.Names.{close, file_dup}
use rodnix.Unix.Pipe.{Pipe, Kind, no_kind, vfs, pipe_r, pipe_w, socket, pipe_retain, pipe_release}

-- A row of fd_table, fd_kind and fd_flags; `handle` is 0 for NULL, `cloexec` is UNIX_FD_CLOEXEC.
pub record Slot : Type 0 where
  pub handle : ℕ
  pub kind : Kind
  pub cloexec : Bool

abbrev pub empty : Slot
empty = record { handle = 0; kind = no_kind; cloexec = false }

abbrev pub slot : List Slot → ℕ → Slot
slot table fd = get_or table fd empty

-- task_fd_alloc: the first descriptor that is not in use.
abbrev pub first_free : List Slot → ℕ → Option ℕ
first_free [] fd = none
first_free (s ∷ ss) fd = if s.handle == 0 then some fd else first_free ss (fd + 1)

unfoldable pub fd_alloc : List Slot → ℕ → Option (ℕ × List Slot)
fd_alloc table handle = elim (first_free table 0) [
  | none ↦ none
  | some fd ↦ some (fd, set table fd (record { handle = handle; kind = no_kind; cloexec = false }))
]

module _ (m : Host) where
  -- The kernel as the descriptors see it: the files and the pipes by address.
  pub record Objects : Type 0 where
    pub world : World m
    pub files : ℕ → Option File
    pub pipes : ℕ → Option Pipe

module _ (m : Host) (socket_close : m.State → ℕ → m.State) where
  abbrev pub kfree : Objects m → ℕ → Objects m
  kfree k p = record k { world = record (k.world) { hw = m.kfree k.world.hw p } }

  -- The pipe at an address after unix_pipe_release.
  abbrev pub drop_pipe : Objects m → ℕ → Kind → Objects m
  drop_pipe k h kind = elim (k.pipes h) [
    | none ↦ k
    | some p ↦
        let (freed, p') = pipe_release p kind in
        if freed
        then kfree (record k { pipes = put k.pipes h none }) h
        else record k { pipes = put k.pipes h (some p') }
  ]

  -- What unix_fd_release does to the object of a descriptor.
  abbrev pub drop_object : Objects m → Slot → Objects m
  drop_object k s = elim s.kind [
    | vfs ↦ elim (k.files s.handle) [
      | none ↦ k
      | some f ↦
          kfree (record k { world = (close m k.world f).1; files = put k.files s.handle none })
            s.handle
    ]
    | pipe_r ↦ drop_pipe k s.handle pipe_r
    | pipe_w ↦ drop_pipe k s.handle pipe_w
    | socket ↦ record k { world = record (k.world) { hw = socket_close k.world.hw s.handle } }
    | no_kind ↦ k
  ]

  -- unix_fd_release.
  unfoldable pub fd_release : Objects m → List Slot → ℕ → Objects m × List Slot
  fd_release k table fd =
      let s = slot table fd in
      if s.handle == 0 then (k, table) else (drop_object k s, set table fd empty)

  -- unix_pipe_retain on the pipe of a descriptor.
  abbrev pub share_pipe : Objects m → Slot → Kind → Result ℕ × Objects m
  share_pipe k s kind = elim (k.pipes s.handle) [
    | none ↦ (fail invalid, k)
    | some p ↦
        if p.magic
        then (done s.handle, record k { pipes = put k.pipes s.handle (some (pipe_retain p kind)) })
        else (fail invalid, k)
  ]

  -- The object of a descriptor, shared or copied for another one: its address.
  unfoldable pub share : Objects m → Slot → Result ℕ × Objects m
  share k s = elim s.kind [
    | vfs ↦
        let (copy, hw) = m.kmalloc k.world.hw 24 in
        let k1 = record k { world = record (k.world) { hw = hw } } in
        if copy == 0 then (fail nomem, k1) else elim (k.files s.handle) [
          | none ↦ (fail invalid, kfree k1 copy)
          | some f ↦
              let (r, w) = file_dup m k1.world f in
              elim r [
                | fail _ ↦ (fail invalid, kfree (record k1 { world = w }) copy)
                | done f' ↦
                    (done copy, record k1 { world = w; files = put k1.files copy (some f') })
              ]
        ]
    | pipe_r ↦ share_pipe k s pipe_r
    | pipe_w ↦ share_pipe k s pipe_w
    | _ ↦ (fail unsupported, k)
  ]
