-- ===== src/Unix/Files.antt =====
-- System calls of kernel/unix/fd/unix_fd.c on files and paths: open, read, write, lseek, truncate,
-- chdir, mkdir, unlink, rmdir and rename. The buffers of a process are taken as valid, and a path
-- is what unix_copy_user_cstr has copied; `none` is a loop that has not ended in its rounds or a
-- write past the end of a buffer.
use rodnix.Prelude.{
  ℕ, ℤ, pos, length, Bool, false, not, Option, none, some, List, [], ◌∷◌, ◌==◌, ◌||◌, ltb,
  if◌then◌else◌, take, Status, ok, invalid, notfound, nomem, busy, denied, is_ok, Result, done,
  fail,
}
use rodnix.Fs.Host.{Host}
use rodnix.Fs.Path.{slash, same_bytes}
use rodnix.Fs.Node.{File, put}
use rodnix.Fs.Store.{World}
use rodnix.Fs.Io.{read, write, seek, ftruncate}
use rodnix.Fs.Names.{mkdir, unlink, rename, stat, open_file, close, truncate}
use rodnix.Unix.Pipe.{Pipe, vfs, pipe_r, pipe_w, read_loop, write_loop}
use rodnix.Unix.Fd.{Slot, slot, Objects, fd_alloc, kfree}
use rodnix.Unix.Dup.{in_use}
use rodnix.Unix.Calls.{set_kind, user_path}

module _ (m : Host) (socket_close : m.State → ℕ → m.State) where
  abbrev set_world : Objects m → World m → Objects m
  set_world k w = record k { world = w }

  abbrev set_file : Objects m → World m → ℕ → File → Objects m
  set_file k w h f = record k { world = w; files = put k.files h (some f) }

  -- The end of unix_fs_open; 24 is the size of a file.
  unfoldable pub open_path :
      ℕ → Objects m → List Slot → List ℕ → ℕ → Option (Result ℕ × Objects m × List Slot)
  open_path rounds k table path flags =
      let (h, hw) = m.kmalloc k.world.hw 24 in
      let w1 : World m = record (k.world) { hw = hw } in
      if h == 0
      then some (fail nomem, set_world k w1, table)
      else elim (open_file m rounds w1 path flags) [
        | none ↦ none
        | some (r, w2) ↦ elim r [
          | fail rc ↦ some (fail rc, kfree m socket_close (set_world k w2) h, table)
          | done f ↦ elim (fd_alloc table h) [
            | none ↦ some (fail busy, kfree m socket_close (set_world k (close m w2 f).1) h, table)
            | some (fd, t) ↦ some (done fd, set_file k w2 h f, set_kind t fd vfs)
          ]
        ]
      ]

  -- unix_fs_read: the count that it returns, and the bytes read; `other` is what the rest of the system does to a pipe while the thread yields.
  unfoldable pub fs_read :
      ℕ → (Pipe → Pipe) → Objects m → List Slot → ℕ → ℕ → Option (Result (ℤ × List ℕ) × Objects m)
  fs_read rounds other k table fd n =
      let s = slot table fd in
      if not (in_use table fd) then some (fail invalid, k) else elim s.kind [
        | vfs ↦ elim (k.files s.handle) [
          | none ↦ some (fail invalid, k)
          | some f ↦ let (r, f', w) = read m k.world f n in some (r, set_file k w s.handle f')
        ]
        | pipe_r ↦ elim (k.pipes s.handle) [
          | none ↦ some (fail invalid, k)
          | some p ↦
              let looped : Option (Result (ℤ × List ℕ) × Objects m) =
                elim (read_loop rounds other p 0 n) [
                  | none ↦ none
                  | some (bytes, p') ↦ some (
                    done (pos (length bytes), bytes),
                    record k { pipes = put k.pipes s.handle (some p') },
                  )
                ] in
              if p.magic then looped else some (fail invalid, k)
        ]
        | _ ↦ some (fail invalid, k)
      ]

  -- unix_fs_write.
  unfoldable pub fs_write :
      ℕ → (Pipe → Pipe) → Objects m → List Slot → ℕ → List ℕ → Option (Result ℤ × Objects m)
  fs_write rounds other k table fd bytes =
      let s = slot table fd in
      if not (in_use table fd) then some (fail invalid, k) else elim s.kind [
        | vfs ↦ elim (k.files s.handle) [
          | none ↦ some (fail invalid, k)
          | some f ↦ elim (write m rounds k.world f bytes) [
            | none ↦ none
            | some (r, f', w) ↦ some (r, set_file k w s.handle f')
          ]
        ]
        | pipe_w ↦ elim (k.pipes s.handle) [
          | none ↦ some (fail invalid, k)
          | some p ↦
              let looped : Option (Result ℤ × Objects m) =
                elim (write_loop rounds other p 0 bytes) [
                  | none ↦ none
                  | some (r, p') ↦
                      let r' : Result ℤ = elim r [ fail e ↦ fail e | done n ↦ done (pos n) ] in
                      some (r', record k { pipes = put k.pipes s.handle (some p') })
                ] in
              if p.magic then looped else some (fail invalid, k)
        ]
        | _ ↦ some (fail invalid, k)
      ]

  -- A call on a path: what it does with the path that unix_resolve_user_path has resolved.
  abbrev on_path {ℓ} : {A : Type ℓ} → List ℕ → List ℕ → A → (List ℕ → Option A) → Option A
  on_path cwd path bad call = elim (user_path cwd path) [
    | none ↦ none
    | some (fail _) ↦ some bad
    | some (done p) ↦ call p
  ]

  -- unix_fs_mkdir.
  unfoldable pub fs_mkdir : World m → List ℕ → List ℕ → Option (Status × World m)
  fs_mkdir w cwd path = on_path cwd path (invalid, w) (λ p. some (mkdir m w p))

  -- unix_fs_unlink.
  unfoldable pub fs_unlink : World m → List ℕ → List ℕ → Option (Status × World m)
  fs_unlink w cwd path =
      on_path cwd path (invalid, w)
        (λ p.
          let (st, w1) = stat m w p in
          elim st [
            | fail _ ↦ some (notfound, w1)
            | done (is_dir, _) ↦ if is_dir then some (invalid, w1) else some (unlink m w1 p)
          ])

  -- unix_fs_rmdir.
  unfoldable pub fs_rmdir : World m → List ℕ → List ℕ → Option (Status × World m)
  fs_rmdir w cwd path =
      on_path cwd path (invalid, w)
        (λ p.
          let (st, w1) = stat m w p in
          if same_bytes p (slash ∷ []) then some (denied, w) else elim st [
            | fail _ ↦ some (notfound, w1)
            | done (is_dir, _) ↦ if is_dir then some (unlink m w1 p) else some (invalid, w1)
          ])

  -- unix_fs_rename.
  unfoldable pub fs_rename : ℕ → World m → List ℕ → List ℕ → List ℕ → Option (Status × World m)
  fs_rename rounds w cwd old_path new_path =
      on_path cwd old_path (invalid, w)
        (λ p. on_path cwd new_path (invalid, w) (λ q. rename m rounds w p q))

  -- unix_fs_chdir: the status, the state and the new working directory.
  unfoldable pub fs_chdir : World m → List ℕ → List ℕ → Option (Status × World m × List ℕ)
  fs_chdir w cwd path =
      on_path cwd path (invalid, w, cwd)
        (λ p.
          let (st, w1) = stat m w p in
          elim st [
            | fail _ ↦ some (notfound, w1, cwd)
            | done (is_dir, _) ↦
                if is_dir then some (ok, w1, take 255 p) else some (notfound, w1, cwd)
          ])

  -- unix_fs_truncate.
  unfoldable pub fs_truncate : ℕ → World m → List ℕ → List ℕ → ℕ → Option (Status × World m)
  fs_truncate rounds w cwd path size =
      on_path cwd path (invalid, w) (λ p. truncate m rounds w p size)

  -- unix_fs_ftruncate.
  unfoldable pub fs_ftruncate : ℕ → Objects m → List Slot → ℕ → ℕ → Option (Status × Objects m)
  fs_ftruncate rounds k table fd size =
      let s = slot table fd in
      let is_file : Bool = elim s.kind [ vfs ↦ ltb fd 32 | _ ↦ false ] in
      if not is_file
      then some (invalid, k)
      else if s.handle == 0
      then some (denied, k)
      else elim (k.files s.handle) [
        | none ↦ some (denied, k)
        | some f ↦ elim (ftruncate m rounds k.world f size) [
          | none ↦ none
          | some (rc, f', w) ↦
              if f.writable then some (rc, set_file k w s.handle f') else some (denied, k)
        ]
      ]

  -- unix_fs_lseek.
  unfoldable pub fs_lseek : Objects m → List Slot → ℕ → ℤ → ℕ → Result ℕ × Objects m
  fs_lseek k table fd off whence =
      let s = slot table fd in
      let is_file : Bool = elim s.kind [ vfs ↦ ltb fd 32 | _ ↦ false ] in
      if not is_file || (s.handle == 0) then (fail invalid, k) else elim (k.files s.handle) [
        | none ↦ (fail invalid, k)
        | some f ↦
            let (rc, f') = seek m k.world f off whence in
            if is_ok rc then (done f'.pos, set_file k k.world s.handle f') else (fail rc, k)
      ]
