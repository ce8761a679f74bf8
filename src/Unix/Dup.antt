-- ===== src/Unix/Dup.antt =====
-- The calls of kernel/unix/fd/unix_fd.c on descriptors: dup, dup2, dup3, close, pipe, fcntl, and
-- what spawn and exec do to the table.
use rodnix.Prelude.{
  ℕ, ◌+◌, zero, suc, Bool, true, false, not, none, some, List, ◌==◌, ◌||◌, ◌&&◌, ltb, if◌then◌else◌,
  set, Status, ok, invalid, busy, unsupported, is_ok, Result, done, fail,
}
use rodnix.Fs.Host.{Host}
use rodnix.Unix.Pipe.{Kind, socket}
use rodnix.Unix.Fd.{Slot, empty, slot, first_free, Objects, fd_release, share}

-- Whether a descriptor is in use; a number past the table is not.
abbrev pub in_use : List Slot → ℕ → Bool
in_use table fd = ltb fd 32 && not ((slot table fd).handle == 0)

abbrev pub result_or {ℓ} : {A : Type ℓ} → Result A → A → A
result_or (done n) d = n
result_or (fail _) d = d

abbrev pub is_socket : Kind → Bool
is_socket socket = true
is_socket _ = false

module _ (m : Host) (socket_close : m.State → ℕ → m.State) where
  -- unix_fd_dup_into, for a descriptor that is in use and a number below 32.
  unfoldable pub dup_into : Objects m → List Slot → ℕ → ℕ → Status × Objects m × List Slot
  dup_into k table oldfd newfd =
      let s = slot table oldfd in
      let (r, k') = share m socket_close k s in
      elim r [
        | fail rc ↦ (rc, k', table)
        | done h ↦ (ok, k', set table newfd (record { handle = h; kind = s.kind; cloexec = false }))
      ]

  -- unix_fs_dup.
  unfoldable pub dup : Objects m → List Slot → ℕ → Result ℕ × Objects m × List Slot
  dup k table oldfd =
      if not (in_use table oldfd) then (fail invalid, k, table) else elim (first_free table 0) [
        | none ↦ (fail busy, k, table)
        | some newfd ↦
            let (rc, k', table') = dup_into k table oldfd newfd in
            (if is_ok rc then done newfd else fail rc, k', table')
      ]

  -- The end of unix_fs_dup2 and unix_fs_dup3: the descriptor is released and entered again.
  unfoldable pub replace : Objects m → List Slot → ℕ → ℕ → Status × Objects m × List Slot
  replace k table oldfd newfd =
      let (k', table') = fd_release m socket_close k table newfd in dup_into k' table' oldfd newfd

  -- unix_fs_dup2.
  unfoldable pub dup2 : Objects m → List Slot → ℕ → ℕ → Result ℕ × Objects m × List Slot
  dup2 k table oldfd newfd =
      let (rc, k', table') = replace k table oldfd newfd in
      if not (in_use table oldfd) || not (ltb newfd 32)
      then (fail invalid, k, table)
      else if oldfd == newfd
      then (done newfd, k, table)
      else (if is_ok rc then done newfd else fail rc, k', table')

  -- unix_fs_dup3; UNIX_O_CLOEXEC is the bit 0x100000, the only one allowed.
  unfoldable pub dup3 : Objects m → List Slot → ℕ → ℕ → ℕ → Result ℕ × Objects m × List Slot
  dup3 k table oldfd newfd flags =
      let (rc, k', table') = replace k table oldfd newfd in
      let marked = set table' newfd (record (slot table' newfd) { cloexec = true }) in
      if not (in_use table oldfd) || not (ltb newfd 32)
      then (fail invalid, k, table)
      else if oldfd == newfd
      then (fail invalid, k, table)
      else if not ((flags == 0) || (flags == 0x10_0000))
      then (fail unsupported, k, table)
      else if is_ok rc
      then (done newfd, k', if flags == 0 then table' else marked)
      else (fail rc, k', table')

  -- unix_fs_close.
  unfoldable pub close_fd : Objects m → List Slot → ℕ → Status × Objects m × List Slot
  close_fd k table fd =
      let (k', table') = fd_release m socket_close k table fd in
      if in_use table fd then (ok, k', table') else (invalid, k, table)

  -- unix_apply_cloexec from a descriptor on, for the rounds that are left.
  unfoldable pub apply_cloexec : ℕ → Objects m → List Slot → ℕ → Objects m × List Slot
  apply_cloexec zero k table fd = (k, table)
  apply_cloexec (suc n) k table fd =
      let (k1, t1) =
        if (slot table fd).cloexec then fd_release m socket_close k table fd else (k, table) in
      apply_cloexec n k1 t1 (fd + 1)

  -- The release of every descriptor of a child, from a descriptor on.
  unfoldable pub release_all : ℕ → Objects m → List Slot → ℕ → Objects m × List Slot
  release_all zero k table fd = (k, table)
  release_all (suc n) k table fd =
      let (k1, t1) = fd_release m socket_close k table fd in release_all n k1 t1 (fd + 1)

  -- What a descriptor of the parent is to the child: a free one when it is free or a socket.
  unfoldable pub clone_one : Objects m → Slot → Result Slot × Objects m
  clone_one k s =
      let (r, k') = share m socket_close k s in
      let copied : Result Slot = elim r [
        | fail rc ↦ fail rc
        | done h ↦ done (record s { handle = h })
      ] in
      if (s.handle == 0) || is_socket s.kind then (done empty, k) else (copied, k')

  -- The loop of unix_clone_fds_for_spawn, for the rounds that are left: the status and the table of
  -- the child.
  unfoldable pub clone_from :
      ℕ → Objects m → List Slot → List Slot → ℕ → Status × Objects m × List Slot
  clone_from zero k parent child fd = (ok, k, child)
  clone_from (suc n) k parent child fd =
      let (r, k1) = clone_one k (slot parent fd) in
      let (undone, none_left) = release_all 32 k1 child 0 in
      let rest = clone_from n k1 parent (set child fd (result_or r empty)) (fd + 1) in
      elim r [ fail rc ↦ (rc, undone, none_left) | done _ ↦ rest ]

  -- unix_clone_fds_for_spawn.
  unfoldable pub clone_fds : Objects m → List Slot → List Slot → Status × Objects m × List Slot
  clone_fds k parent child = clone_from 32 k parent child 0
