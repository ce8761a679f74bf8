-- ===== src/Unix/EndsDup.antt =====
-- dup2 and the counts of the ends of pipes, in kernel/unix/fd/unix_fd.c.
use rodnix.Prelude.{
  ℕ, ◌+◌, ◌<◌, ◌^◌, ◌≡◌, ◌≢◌, refl, sym, ap, subst, ◌∙◌, Bool-cases, false, not, ◌||◌, ◌==◌, ==_iff,
  ==_refl, Option-cases, some, List, ltb, length, length-set, get_or-set_self, set, arith, ◌⊎◌, inl,
  inr, Status, Result, done, fail,
}
use rodnix.Fs.Host.{Host}
use rodnix.Fs.Node.{put}
use rodnix.Fs.Names.{file_dup}
use rodnix.Unix.Pipe.{Pipe, Kind, no_kind, vfs, pipe_r, pipe_w, socket, pipe_retain}
use rodnix.Unix.Fd.{Slot, empty, slot, Objects, fd_release, share, share_pipe}
use rodnix.Unix.Dup.{dup_into, replace, dup2, in_use}
use rodnix.Unix.Ends.{
  reads, writes, total, Holds, IsCounted, total-set, total-set-empty, retained-reader,
  retained-writer, Holds-cast, quiet,
}
use rodnix.Unix.EndsRelease.{fd_release-IsCounted}

-- The descriptor that is entered for a shared object.
abbrev entered : Kind → ℕ → Slot
entered kind a = record { handle = a; kind = kind; cloexec = false }

-- Fewer than 2^32 - 1 ends of every pipe.
abbrev pub Few : (ℕ → ℕ) → (ℕ → ℕ) → List Slot → Type 0
Few readers writers table =
    (h : ℕ)
    → (total (reads h) table + readers h + 1 < 2 ^ 32)
      × (total (writes h) table + writers h + 1 < 2 ^ 32)

pub Result-cases {ℓ} :
    {A : Type ℓ} (o : Result A) → ((rc : Status) × (o ≡ fail rc)) ⊎ ((a : A) × (o ≡ done a))
Result-cases (fail rc) = inl (rc, refl)
Result-cases (done a) = inr (a, refl)

pub free_end : (s : Slot) (h : ℕ) → h ≢ 0 → s.handle ≡ 0 → (reads h s ≡ 0) × (writes h s ≡ 0)
free_end s h ne z = ground (arith, ne, z)

module _ (m : Host) (socket_close : m.State → ℕ → m.State) where
  -- What sharing an object does to the pipe at an address.
  abbrev pub Shared : Kind → ℕ → ℕ → ℕ → Result ℕ × Objects m → Type 0
  Shared kind h r w (fail _, k) = Holds (k.pipes h) r w
  Shared kind h r w (done a, k) =
      Holds (k.pipes h) (reads h (entered kind a) + r) (writes h (entered kind a) + w)

  share_pipe-Shared :
      (k : Objects m) (s : Slot) (h r w : ℕ) (kind : Kind)
      → ((p : Pipe)
          → Holds (some p) r w
          → Holds
              (some (pipe_retain p kind))
              (reads s.handle (entered kind s.handle) + r)
              (writes s.handle (entered kind s.handle) + w))
      → Holds (k.pipes h) r w
      → Shared kind h r w (share_pipe m socket_close k s kind)
  share_pipe-Shared k s h r w kind retained c = elim (Option-cases (k.pipes s.handle)) [
    | inl q ↦ rw (q, share_pipe) c
    | inr (p, q) ↦
        rw (q, share_pipe)
          (elim (Bool-cases p.magic) [
            | inr f ↦ simp f c
            | inl t ↦ simp t (elim (Bool-cases (s.handle == h)) [
              | inl b ↦
                  let same = (==_iff s.handle h).0 b in
                  subst
                    (λ x.
                      Holds (put k.pipes s.handle (some (pipe_retain p kind)) x)
                        (reads x (entered kind s.handle) + r)
                        (writes x (entered kind s.handle) + w))
                    same
                    (Holds-cast {o = some (pipe_retain p kind)} (rw (==_refl s.handle) refl) refl
                      refl (retained p (Holds-cast (ap k.pipes (sym same) ∙ q) refl refl c)))
              | inr b ↦ Holds-cast (rw b refl) (rw b (omega arith)) (rw b (omega arith)) c
            ])
          ])
  ]

  pub share-Shared :
      (k : Objects m) (s : Slot) (h r w : ℕ) (kind : Kind)
      → s.kind ≡ kind
      → r + 1 < 2 ^ 32
      → w + 1 < 2 ^ 32
      → Holds (k.pipes h) r w
      → Shared kind h r w (share m socket_close k s)
  unfolding share file_dup
  share-Shared k s h r w pipe_r e l u c =
      rw (e, share)
        (share_pipe-Shared k s h r w pipe_r
          (λ p q.
            Holds-cast {o = some (pipe_retain p pipe_r)} refl (rw (==_refl s.handle) (omega arith))
              (omega (arith, quiet s.handle s.handle)) (retained-reader p r w q l))
          c)
  share-Shared k s h r w pipe_w e l u c =
      rw (e, share)
        (share_pipe-Shared k s h r w pipe_w
          (λ p q.
            Holds-cast {o = some (pipe_retain p pipe_w)} refl
              (omega (arith, quiet s.handle s.handle)) (rw (==_refl s.handle) (omega arith))
              (retained-writer p r w q u))
          c)
  share-Shared k s h r w no_kind e l u c = rw (e, share) c
  share-Shared k s h r w socket e l u c = rw (e, share) c
  share-Shared k s h r w vfs e l u c =
      rw (e, share)
        (let copy = (m.kmalloc k.world.hw 24).0 in
          elim (Bool-cases (copy == 0)) [
            | inl a ↦ rw a c
            | inr a ↦ rw a (elim (Option-cases (k.files s.handle)) [
              | inl q ↦ rw q c
              | inr (f, q) ↦ rw q (elim (Bool-cases (f.node == 0)) [
                | inl b ↦ rw (b, file_dup) c
                | inr b ↦
                    rw (b, file_dup)
                      (Holds-cast refl (omega (arith, quiet h copy)) (omega (arith, quiet h copy))
                        c)
              ])
            ])
          ])

  dup_into-IsCounted :
      (k : Objects m) (table : List Slot) (oldfd newfd : ℕ) (readers writers : ℕ → ℕ)
      → newfd < length table
      → (slot table newfd).handle ≡ 0
      → Few readers writers table
      → IsCounted k.pipes table readers writers
      → IsCounted
          (dup_into m socket_close k table oldfd newfd).1.pipes
          (dup_into m socket_close k table oldfd newfd).2
          readers
          writers
  unfolding dup_into
  dup_into-IsCounted k table oldfd newfd readers writers lt free few c = record {
    counts = λ h ne.
        let s = slot table oldfd in
        let gone = free_end (slot table newfd) h ne free in
        let shared =
          share-Shared k s h (total (reads h) table + readers h)
            (total (writes h) table + writers h) s.kind refl (few h).0 (few h).1 (c.counts h ne) in
        elim (Result-cases (share m socket_close k s).0) [
          | inl (rc, e) ↦ rw (e, dup_into) (rw e at shared)
          | inr (a, e) ↦
              rw (e, dup_into)
                (Holds-cast refl
                  (omega (arith, total-set (reads h) table newfd (entered s.kind a) empty lt, gone))
                  (omega
                    (arith, total-set (writes h) table newfd (entered s.kind a) empty lt, gone))
                  (rw e at shared))
        ];
  }

  fd_release-table :
      (k : Objects m) (table : List Slot) (fd : ℕ)
      → (((slot table fd).handle ≡ 0) × ((fd_release m socket_close k table fd).1 ≡ table))
        ⊎ ((fd_release m socket_close k table fd).1 ≡ set table fd empty)
  unfolding fd_release
  fd_release-table k table fd = elim (Bool-cases ((slot table fd).handle == 0)) [
    | inl b ↦ inl ((==_iff (slot table fd).handle 0).0 b, rw (b, fd_release) refl)
    | inr b ↦ inr (rw (b, fd_release) refl)
  ]

  replace-IsCounted :
      (k : Objects m) (table : List Slot) (oldfd newfd : ℕ) (readers writers : ℕ → ℕ)
      → newfd < length table
      → Few readers writers table
      → IsCounted k.pipes table readers writers
      → IsCounted
          (replace m socket_close k table oldfd newfd).1.pipes
          (replace m socket_close k table oldfd newfd).2
          readers
          writers
  unfolding replace
  replace-IsCounted k table oldfd newfd readers writers lt few c =
      let k' = (fd_release m socket_close k table newfd).0 in
      let table' = (fd_release m socket_close k table newfd).1 in
      let freed = fd_release-IsCounted m socket_close k table newfd readers writers c in
      elim (fd_release-table k table newfd) [
        | inl (z, e) ↦
            dup_into-IsCounted k' table' oldfd newfd readers writers
              (subst (λ t. newfd < length t) (sym e) lt)
              (subst (λ t. (slot t newfd).handle ≡ 0) (sym e) z)
              (subst (Few readers writers) (sym e) few) freed
        | inr e ↦
            dup_into-IsCounted k' table' oldfd newfd readers writers
              (subst (λ t. newfd < length t) (sym e)
                (omega (arith, lt, length-set table newfd empty)))
              (subst (λ t. (slot t newfd).handle ≡ 0) (sym e)
                (ap (λ (s : Slot). s.handle) (get_or-set_self table newfd empty empty lt)))
              (subst (Few readers writers) (sym e) (λ h. (
                omega (arith, (few h).0, total-set-empty (reads h) table newfd (quiet h 0)),
                omega (arith, (few h).1, total-set-empty (writes h) table newfd (quiet h 0)),
              )))
              freed
      ]

  -- unix_fs_dup2 on a table of 32 descriptors, when every pipe has fewer than 2^32 - 1 ends,
  -- keeps the counts: each pipe exists exactly while some descriptor names it, here or
  -- elsewhere, and its readers and writers are the numbers of these; on every branch, also when
  -- it fails.
  pub dup2-IsCounted :
      (k : Objects m) (table : List Slot) (oldfd newfd : ℕ) (readers writers : ℕ → ℕ)
      → length table ≡ 32
      → Few readers writers table
      → IsCounted k.pipes table readers writers
      → IsCounted
          (dup2 m socket_close k table oldfd newfd).1.pipes
          (dup2 m socket_close k table oldfd newfd).2
          readers
          writers
  unfolding dup2
  dup2-IsCounted k table oldfd newfd readers writers full few c =
      elim (Bool-cases (not (in_use table oldfd) || not (ltb newfd 32))) [
        | inl b ↦ rw (b, dup2) c
        | inr b ↦ elim (Bool-cases (oldfd == newfd)) [
          | inl q ↦ rw (b, q, dup2) c
          | inr q ↦
              rw (b, q, dup2)
                (replace-IsCounted k table oldfd newfd readers writers (ground (arith, b, full)) few
                  c)
        ]
      ]
