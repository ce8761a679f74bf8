-- ===== src/Unix/Poll.antt =====
-- unix_poll_one of kernel/unix/fd/unix_fd.c, and what it promises to a reader.
use rodnix.Prelude.{
  ℕ, pos, length, suc, ◌≡◌, ◌≢◌, refl, Bool, Bool-cases, true, false, not, ◌&&◌, ◌||◌, none, some,
  List, ◌==◌, ==_iff, ltb, if◌then◌else◌, take, done, arith, ◌⊎◌, inl, inr,
}
use rodnix.Fs.Host.{Host}
use rodnix.Fs.Node.{put}
use rodnix.Fs.File.{inode_of, is_console}
use rodnix.Unix.Pipe.{Pipe, vfs, pipe_r, pipe_w}
use rodnix.Unix.PipeQueue.{IsPipe, queued}
use rodnix.Unix.PipeLoops.{read_loop-queued}
use rodnix.Unix.Fd.{Slot, slot, Objects}
use rodnix.Unix.Dup.{in_use}
use rodnix.Unix.Files.{fs_read}

-- The bits of `events` and `revents`: UNIX_POLLIN, UNIX_POLLOUT, UNIX_POLLERR, UNIX_POLLHUP and
-- UNIX_POLLNVAL.
pub record Events : Type 0 where
  pub readable : Bool
  pub writable : Bool
  pub err : Bool
  pub hup : Bool
  pub nval : Bool

abbrev pub no_events : Events
no_events = record { readable = false; writable = false; err = false; hup = false; nval = false }

abbrev pub not_valid : Events
not_valid = record no_events { nval = true }

-- The end of unix_poll_one: whether an event is there.
abbrev pub any_event : Events → Bool
any_event e = e.readable || e.writable || e.err || e.hup || e.nval

no_event : false ≢ true
no_event e = cc e

pipe_ready :
    (a : Bool) (p : Pipe)
    → (a && (ltb 0 p.count || (p.writers == 0))) ≡ true
    → (p.count ≢ 0) ⊎ (p.writers ≡ 0)
pipe_ready a p h = elim (Bool-cases (p.writers == 0)) [
  | inl z ↦ inr ((==_iff p.writers 0).0 z)
  | inr z ↦ inl (λ e. ground (arith, h, z, e))
]

module _ (m : Host) where
  -- unix_poll_one: the events; `typed` is tty_console_poll_readable.
  unfoldable pub poll_one : Objects m → List Slot → Bool → ℕ → Events → Events
  poll_one k table typed fd wanted =
      let s = slot table fd in
      if not (in_use table fd) then not_valid else elim s.kind [
        | vfs ↦ elim (k.files s.handle) [
          | none ↦ not_valid
          | some f ↦ elim (inode_of m k.world f) [
            | none ↦ not_valid
            | some i ↦
                if f.node == 0
                then not_valid
                else if is_console i
                then record no_events {
                  readable = wanted.readable && typed;
                  writable = wanted.writable;
                }
                else record no_events {
                  readable = wanted.readable;
                  writable = wanted.writable && f.writable;
                }
          ]
        ]
        | pipe_r ↦ elim (k.pipes s.handle) [
          | none ↦ not_valid
          | some p ↦ if not p.magic then not_valid else record no_events {
            readable = wanted.readable && (ltb 0 p.count || (p.writers == 0));
            hup = p.writers == 0;
          }
        ]
        | pipe_w ↦ elim (k.pipes s.handle) [
          | none ↦ not_valid
          | some p ↦ if not p.magic then not_valid else record no_events {
            writable = wanted.writable && ltb 0 p.readers && ltb p.count 4096;
            err = p.readers == 0;
            hup = p.readers == 0;
          }
        ]
        | _ ↦ not_valid
      ]

  -- What a readable reading end says.
  poll_one-ready :
      (k : Objects m) (table : List Slot) (typed : Bool) (fd : ℕ) (wanted : Events) (p : Pipe)
      → (slot table fd).kind ≡ pipe_r
      → k.pipes (slot table fd).handle ≡ some p
      → (poll_one k table typed fd wanted).readable ≡ true
      → (in_use table fd ≡ true) × (p.magic ≡ true) × ((p.count ≢ 0) ⊎ (p.writers ≡ 0))
  unfolding poll_one
  poll_one-ready k table typed fd wanted p kind at found = elim (Bool-cases (in_use table fd)) [
    | inr u ↦ absurd (no_event (rw (u, poll_one) at found))
    | inl u ↦ elim (Bool-cases p.magic) [
      | inr g ↦ absurd (no_event (rw (u, kind, at, g, poll_one) at found))
      | inl g ↦ (u, g, pipe_ready wanted.readable p (rw (u, kind, at, g, poll_one) at found))
    ]
  ]

module _ (m : Host) (socket_close : m.State → ℕ → m.State) where
  -- When unix_poll_one finds a reading end readable, its pipe having a well-formed ring, unix_fs_read
  -- of n bytes from the descriptor ends without a yield, whatever other threads would do: it reads
  -- the first n of the bytes that wait, or all when there are fewer, and returns their number.
  pub poll_one-reads :
      (k : Objects m) (table : List Slot) (typed : Bool) (fd : ℕ) (wanted : Events) (p : Pipe)
      (other : Pipe → Pipe) (n : ℕ)
      → (slot table fd).kind ≡ pipe_r
      → k.pipes (slot table fd).handle ≡ some p
      → IsPipe p
      → (poll_one m k table typed fd wanted).readable ≡ true
      → (k' : Objects m) × (fs_read m socket_close (suc n) other k table fd n
          ≡ some (done (pos (length (take n (queued p))), take n (queued p)), k'))
  unfolding fs_read
  poll_one-reads k table typed fd wanted p other n kind at w found =
      let (u, g, s) = poll_one-ready m k table typed fd wanted p kind at found in
      let r = read_loop-queued other p n w s in
      (
        record k { pipes = put k.pipes (slot table fd).handle (some r.0) },
        rw (u, kind, at, fs_read, r.1, g) refl,
      )
