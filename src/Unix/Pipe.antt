-- ===== src/Unix/Pipe.antt =====
-- The pipes of kernel/unix/fd/unix_fd.c: a ring of UNIX_PIPE_CAP bytes between two processes.
use rodnix.Prelude.{
  ℕ, ◌+◌, ◌-◌, ◌%◌, zero, suc, Bool, true, false, not, Option, none, some, List, [], ◌∷◌, ◌==◌,
  ◌||◌, ◌&&◌, ltb, if◌then◌else◌, add32, invalid, Result, done, fail,
}
use rodnix.Fs.Node.{put}

-- `unix_pipe_t`; `magic` is whether it holds UNIX_PIPE_MAGIC.
pub record Pipe : Type 0 where
  pub magic : Bool
  pub readers : ℕ
  pub writers : ℕ
  pub head : ℕ
  pub tail : ℕ
  pub count : ℕ
  pub data_at : ℕ → ℕ

-- The kinds of a descriptor.
pub data Kind : Type 0 where
  no_kind : Kind
  vfs : Kind
  pipe_r : Kind
  pipe_w : Kind
  socket : Kind

-- The locked part of a round of the loop in unix_fs_read.
unfoldable pub pop : Pipe → Option (ℕ × Pipe)
pop p =
    if ltb 0 p.count
    then some (p.data_at p.tail, record p { tail = (p.tail + 1) % 4096; count = p.count - 1 })
    else none

-- The loop of unix_fs_read on a pipe, with the rounds that are left: the bytes read. `other` is
-- what the rest of the system does to the pipe while the thread yields; none is a loop that has
-- not ended.
unfoldable pub read_loop : ℕ → (Pipe → Pipe) → Pipe → ℕ → ℕ → Option (List ℕ × Pipe)
read_loop n other p got zero = some ([], p)
read_loop zero other p got (suc left) = none
read_loop (suc n) other p got (suc left) = elim (pop p) [
  | some (b, p') ↦ elim (read_loop n other p' (got + 1) left) [
    | none ↦ none
    | some (bs, p'') ↦ some (b ∷ bs, p'')
  ]
  | none ↦
      let again = read_loop n other (other p) got (suc left) in
      if (p.writers == 0) || ltb 0 got then some ([], p) else again
]

-- The locked part of a round of the loop in unix_fs_write.
unfoldable pub push : Pipe → ℕ → Option Pipe
push p b =
    if ltb 0 p.readers && ltb p.count 4096
    then some (record p {
      data_at = put p.data_at p.head b;
      head = (p.head + 1) % 4096;
      count = p.count + 1;
    })
    else none

-- The loop of unix_fs_write on a pipe, with the rounds that are left: how many of the bytes were
-- written, `wrote` of them before.
unfoldable pub write_loop : ℕ → (Pipe → Pipe) → Pipe → ℕ → List ℕ → Option (Result ℕ × Pipe)
write_loop n other p wrote [] = some (done wrote, p)
write_loop zero other p wrote (b ∷ bs) = none
write_loop (suc n) other p wrote (b ∷ bs) = elim (push p b) [
  | some p' ↦ write_loop n other p' (wrote + 1) bs
  | none ↦
      let again = write_loop n other (other p) wrote (b ∷ bs) in
      if p.readers == 0
      then some (if ltb 0 wrote then done wrote else fail invalid, p)
      else if ltb 0 wrote
      then some (done wrote, p)
      else again
]

-- unix_pipe_retain.
unfoldable pub pipe_retain : Pipe → Kind → Pipe
pipe_retain p kind =
    let kept : Pipe = elim kind [
      | pipe_r ↦ record p { readers = add32 p.readers 1 }
      | pipe_w ↦ record p { writers = add32 p.writers 1 }
      | _ ↦ p
    ] in
    if p.magic then kept else p

-- unix_pipe_release: the pipe, and whether it is freed.
unfoldable pub pipe_release : Pipe → Kind → Bool × Pipe
pipe_release p kind =
    let dropped : Pipe = elim kind [
      | pipe_r ↦ record p { readers = p.readers - 1 }
      | pipe_w ↦ record p { writers = p.writers - 1 }
      | _ ↦ p
    ] in
    let gone = (dropped.readers == 0) && (dropped.writers == 0) in
    if not p.magic
    then (false, p)
    else if gone
    then (true, record dropped { magic = false })
    else (false, dropped)
