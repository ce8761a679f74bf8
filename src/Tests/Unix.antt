-- ===== src/Tests/Unix.antt =====
-- Descriptors, pipes and paths of processes on concrete inputs.
use rodnix.Prelude.{
  true, pos, ℕ, zero, suc, ◌+◌, ◌^◌, ◌<◌, ◌≡◌, ◌↔◌, inl, inr, refl, Bool-cases, false, none, some,
  List, [], ◌∷◌, ◌++◌, length, replicate, ◌==◌, if◌then◌else◌, busy, done, fail, arith,
}
use rodnix.Unix.Path.{ends_in_slash, resolve_path}
use rodnix.Unix.PathBounds.{resolve_path-overflows}
use rodnix.Unix.Pipe.{Pipe, pipe_r, pipe_w, read_loop, write_loop}
use rodnix.Unix.PipeQueue.{IsPipe, queued}
use rodnix.Unix.PipeLoops.{write_loop-queued, read_loop-queued}
use rodnix.Unix.Fd.{Slot, empty, slot, Objects}
use rodnix.Unix.Dup.{dup2, clone_fds}
use rodnix.Unix.Ends.{IsCounted, Holds-cast, reads, writes, total, quiet, one_end, other_end}
use rodnix.Unix.EndsDup.{Few, dup2-IsCounted}
use rodnix.Unix.EndsClone.{end_bound, clone_fds-IsCounted}
use rodnix.Unix.Calls.{new_pipe, fs_pipe}
use rodnix.Unix.Files.{fs_read}
use rodnix.Unix.Poll.{Events, no_events, poll_one, poll_one-reads}
use rodnix.Unix.PipeLeak.{fs_pipe-leaks}
use rodnix.Tests.Fs.{host, start}

abbrev deep : List ℕ
deep = b'/' ∷ replicate 254 b'a'

abbrev name : List ℕ
name = b'f' ∷ []

-- A working directory of 255 bytes.
resolve_path-overflows_example :
    (resolve_path deep name 256 ≡ none) ↔ ((length deep ≡ 255) × (ends_in_slash deep ≡ false))
resolve_path-overflows_example =
    resolve_path-overflows deep name 256 (omega arith) refl (omega arith)

-- A pipe that holds a byte just before the end of its ring.
abbrev half : Pipe
half = record new_pipe {
  head = 0;
  tail = 4095;
  count = 1;
  data_at = λ i. if i == 4095 then 7 else 0;
}

half-IsPipe : IsPipe half
half-IsPipe = record { tail = omega arith; bound = omega arith; head = refl }

abbrev message : List ℕ
message = 8 ∷ 9 ∷ []

abbrev idle_pipe : Pipe → Pipe
idle_pipe p = p

write_loop-queued_example :
    (p' : Pipe) × (write_loop 3 idle_pipe half 0 message ≡ some (done 2, p'))
    × IsPipe p'
    × (queued p' ≡ 7 ∷ 8 ∷ 9 ∷ [])
unfolding queued
write_loop-queued_example =
    write_loop-queued idle_pipe half message half-IsPipe (omega arith) (omega arith)

read_loop-queued_example :
    (p' : Pipe) × (read_loop 5 idle_pipe half 0 4 ≡ some (7 ∷ [], p'))
    × IsPipe p'
    × (queued p' ≡ [])
unfolding queued
read_loop-queued_example = read_loop-queued idle_pipe half 4 half-IsPipe (inl (omega arith))

-- A process with both ends of the pipe at 0x100.
abbrev no_close : ℕ → ℕ → ℕ
no_close s p = s

abbrev table : List Slot
table =
    record { handle = 0x100; kind = pipe_r; cloexec = false }
    ∷ record { handle = 0x100; kind = pipe_w; cloexec = false }
    ∷ replicate 30 empty

abbrev objects : Objects host
objects = record {
  world = start;
  files = λ _. none;
  pipes = λ h. if 0x100 == h then some new_pipe else none;
}

abbrev nowhere : ℕ → ℕ
nowhere _ = 0

no_reads : (h n : ℕ) → total (reads h) (replicate n empty) ≡ 0
no_reads h zero = refl
no_reads h (suc n) = omega (arith, quiet h 0, no_reads h n)

no_writes : (h n : ℕ) → total (writes h) (replicate n empty) ≡ 0
no_writes h zero = refl
no_writes h (suc n) = omega (arith, quiet h 0, no_writes h n)

objects-IsCounted : IsCounted objects.pipes table nowhere nowhere
objects-IsCounted = record {
  counts = λ h ne. elim (Bool-cases (0x100 == h)) [
    | inl b ↦
        Holds-cast {o = some new_pipe} {r = 1} {w = 1} (rw b refl)
          (omega (arith, one_end h 0x100 b, quiet h 0x100, no_reads h 30))
          (omega (arith, one_end h 0x100 b, quiet h 0x100, no_writes h 30))
          (refl, refl, refl, omega arith)
    | inr b ↦
        Holds-cast {o = none} {r = 0} {w = 0} (rw b refl)
          (omega (arith, other_end h 0x100 b, quiet h 0x100, no_reads h 30))
          (omega (arith, other_end h 0x100 b, quiet h 0x100, no_writes h 30)) (refl, refl)
  ];
}

table-Few : Few nowhere nowhere table
table-Few h = (
  omega (arith, end_bound h (slot table 0), quiet h 0x100, no_reads h 30),
  omega (arith, end_bound h (slot table 1), quiet h 0x100, no_writes h 30),
)

-- The writing end goes onto descriptor 0, which was the only reading end.
dup2-IsCounted_example :
    IsCounted
      (dup2 host no_close objects table 1 0).1.pipes
      (dup2 host no_close objects table 1 0).2
      nowhere
      nowhere
dup2-IsCounted_example =
    dup2-IsCounted host no_close objects table 1 0 nowhere nowhere refl table-Few objects-IsCounted

-- The table is that of the parent, and its ends are elsewhere for the child.
abbrev parent_reads : ℕ → ℕ
parent_reads h = total (reads h) table

abbrev parent_writes : ℕ → ℕ
parent_writes h = total (writes h) table

child-IsCounted : IsCounted objects.pipes (replicate 32 empty) parent_reads parent_writes
child-IsCounted = record {
  counts = λ h ne.
      Holds-cast refl (omega (arith, no_reads h 32)) (omega (arith, no_writes h 32))
        (objects-IsCounted.counts h ne);
}

replicate_free : (n fd : ℕ) → (slot (replicate n empty) fd).handle ≡ 0
replicate_free zero fd = refl
replicate_free (suc n) zero = refl
replicate_free (suc n) (suc fd) = replicate_free n fd

parent_few : (h : ℕ) → (parent_reads h + 33 < 2 ^ 32) × (parent_writes h + 33 < 2 ^ 32)
parent_few h = (
  omega (arith, end_bound h (slot table 0), quiet h 0x100, no_reads h 30),
  omega (arith, end_bound h (slot table 1), quiet h 0x100, no_writes h 30),
)

free_table : (fd : ℕ) → (slot (replicate 32 empty) fd).handle ≡ 0
free_table fd = replicate_free 32 fd

clone_fds-IsCounted_example :
    IsCounted
      (clone_fds host no_close objects table (replicate 32 empty)).1.pipes
      (clone_fds host no_close objects table (replicate 32 empty)).2
      parent_reads
      parent_writes
clone_fds-IsCounted_example =
    clone_fds-IsCounted host no_close objects table (replicate 32 empty) parent_reads parent_writes
      refl free_table parent_few child-IsCounted

-- A process with one free descriptor.
abbrev crowded : List Slot
crowded = replicate 31 (record { handle = 0x200; kind = pipe_w; cloexec = false }) ++ empty ∷ []

fs_pipe-leaks_example :
    ((fs_pipe host no_close objects crowded).0 ≡ fail busy)
    × ((fs_pipe host no_close objects crowded).1.pipes 0xA000
        ≡ some (record new_pipe { readers = 0 }))
    × ((slot (fs_pipe host no_close objects crowded).2 31).handle ≡ 0)
fs_pipe-leaks_example =
    fs_pipe-leaks host no_close objects crowded 31 (omega arith) refl (omega arith) refl

-- The pipe with a byte in it, at the reading end of the same table.
abbrev filled : Objects host
filled = record objects { pipes = λ h. if 0x100 == h then some half else none }

abbrev for_reading : Events
for_reading = record no_events { readable = true }

poll_one-reads_example :
    (k' : Objects host) × (fs_read host no_close 5 idle_pipe filled table 0 4
      ≡ some (done (pos 1, 7 ∷ []), k'))
unfolding queued
poll_one-reads_example =
    poll_one-reads host no_close filled table false 0 for_reading half idle_pipe 4 refl refl
      half-IsPipe (unfold poll_one in refl)
