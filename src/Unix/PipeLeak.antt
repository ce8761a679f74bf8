-- ===== src/Unix/PipeLeak.antt =====
-- unix_fs_pipe of kernel/unix/fd/unix_fd.c when only one descriptor is free.
use rodnix.Prelude.{
  get_or-set_self, ℕ, suc, ◌≡◌, ◌≢◌, ◌<◌, refl, sym, ap, subst, ◌∙◌, ne→==_false, ==_refl, false,
  none, some, List, [], ◌∷◌, length, length-set, set, zero, arith, busy, fail,
}
use rodnix.Fs.Host.{Host}
use rodnix.Unix.Pipe.{no_kind, pipe_r, pipe_release}
use rodnix.Unix.Fd.{Slot, slot, empty, Objects, first_free, fd_alloc, fd_release}
use rodnix.Fs.Node.{put}
use rodnix.Unix.Ends.{released}
use rodnix.Unix.EndsRelease.{drop_pipe-same}
use rodnix.Unix.Calls.{new_pipe, set_kind, fs_pipe}

set_twice : (ss : List Slot) (i : ℕ) (s s' : Slot) → set (set ss i s) i s' ≡ set ss i s'
set_twice [] i s s' = refl
set_twice (x ∷ xs) zero s s' = refl
set_twice (x ∷ xs) (suc i) s s' = ap (λ ys. x ∷ ys) (set_twice xs i s s')

set_kind-set :
    (table : List Slot) (fd : ℕ) (s : Slot)
    → fd < length table
    → set_kind (set table fd s) fd pipe_r ≡ set table fd (record s { kind = pipe_r })
set_kind-set table fd s lt =
    set_twice table fd s (record (slot (set table fd s) fd) { kind = pipe_r })
    ∙ ap (λ (x : Slot). set table fd (record x { kind = pipe_r }))
        (get_or-set_self table fd s empty lt)

module _ (m : Host) (socket_close : m.State → ℕ → m.State) where
  -- The release of the reading end of a new pipe.
  release_new :
      (k : Objects m) (table : List Slot) (fd p : ℕ)
      → p ≢ 0
      → fd < length table
      → k.pipes p ≡ some new_pipe
      → ((fd_release m socket_close k
              (set table fd (record { handle = p; kind = pipe_r; cloexec = false }))
              fd).0.pipes
            p
          ≡ some (record new_pipe { readers = 0 }))
        × ((slot
              (fd_release m socket_close k
                (set table fd (record { handle = p; kind = pipe_r; cloexec = false }))
                fd).1
              fd).handle
            ≡ 0)
  unfolding fd_release pipe_release
  release_new k table fd p ne lt q =
      let s : Slot = record { handle = p; kind = pipe_r; cloexec = false } in
      rw (get_or-set_self table fd s empty lt, fd_release, ne→==_false p 0 ne)
        (
          drop_pipe-same m socket_close k p pipe_r ∙ ap (λ o. released o pipe_r) q,
          ap (λ (x : Slot). x.handle)
              (get_or-set_self (set table fd s) fd empty empty
                (omega (arith, lt, length-set table fd s))),
        )

  -- unix_fs_pipe, when kmalloc gives a block and the table has exactly one free descriptor, fails
  -- with RDNX_E_BUSY and frees the descriptor again, but leaves the new pipe in place with no reader
  -- and one writer.
  pub fs_pipe-leaks :
      (k : Objects m) (table : List Slot) (fd : ℕ)
      → (m.kmalloc k.world.hw 4120).0 ≢ 0
      → first_free table 0 ≡ some fd
      → fd < length table
      → first_free
          (set table fd
            (record { handle = (m.kmalloc k.world.hw 4120).0; kind = pipe_r; cloexec = false }))
          0
        ≡ none
      → ((fs_pipe m socket_close k table).0 ≡ fail busy)
        × ((fs_pipe m socket_close k table).1.pipes (m.kmalloc k.world.hw 4120).0
            ≡ some (record new_pipe { readers = 0 }))
        × ((slot (fs_pipe m socket_close k table).2 fd).handle ≡ 0)
  unfolding fs_pipe fd_alloc
  fs_pipe-leaks k table fd ne free lt full =
      let p = (m.kmalloc k.world.hw 4120).0 in
      let k2 : Objects m = record {
        world = record (k.world) { hw = (m.kmalloc k.world.hw 4120).1 };
        files = k.files;
        pipes = put k.pipes p (some new_pipe);
      } in
      let kept =
        subst
          (λ t.
            ((fd_release m socket_close k2 t fd).0.pipes p ≡ some (record new_pipe { readers = 0 }))
            × ((slot (fd_release m socket_close k2 t fd).1 fd).handle ≡ 0))
          (sym (set_kind-set table fd (record { handle = p; kind = no_kind; cloexec = false }) lt))
          (release_new k2 table fd p ne lt (rw (==_refl p) refl)) in
      rw
        (
          ne→==_false p 0 ne,
          fs_pipe,
          free,
          fd_alloc,
          set_kind-set table fd (record { handle = p; kind = no_kind; cloexec = false }) lt,
          full,
        )
        (refl, kept.0, kept.1)
