-- ===== src/Unix/EndsClone.antt =====
-- The descriptors of a spawned process and the counts of the ends of pipes, in
-- kernel/unix/fd/unix_fd.c.
use rodnix.Prelude.{
  ℕ, ◌+◌, ◌≤◌, ◌<◌, ◌^◌, ◌≡◌, ◌≢◌, refl, sym, ap, subst, ◌∙◌, zero, suc, Bool-cases, false, ◌||◌,
  ◌==◌, List, [], ◌∷◌, length, length-set, set, arith, inl, inr, Result, done, fail,
}
use rodnix.Fs.Host.{Host}
use rodnix.Unix.Pipe.{Kind, no_kind, vfs, pipe_r, pipe_w, socket}
use rodnix.Unix.Fd.{Slot, empty, slot, Objects, fd_release, share}
use rodnix.Unix.Dup.{release_all, clone_one, clone_from, clone_fds, is_socket, result_or}
use rodnix.Unix.Ends.{reads, writes, total, Holds, IsCounted, total-set, Holds-cast, quiet}
use rodnix.Unix.EndsRelease.{fd_release-IsCounted}
use rodnix.Unix.EndsDup.{share-Shared, Result-cases, free_end}

-- A table ends in free descriptors.
abbrev Free : List Slot → ℕ → Type 0
Free table fd = (i : ℕ) → fd ≤ i → (slot table i).handle ≡ 0

Free-set : (table : List Slot) (fd : ℕ) (s : Slot) → Free table fd → Free (set table fd s) (fd + 1)
Free-set [] fd s h i l = refl
Free-set (x ∷ xs) zero s h zero l = elim l [ ]
Free-set (x ∷ xs) zero s h (suc i) l = h (suc i) (omega arith)
Free-set (x ∷ xs) (suc fd) s h zero l = absurd (omega (arith, l))
Free-set (x ∷ xs) (suc fd) s h (suc i) l =
    Free-set xs fd s (λ j u. h (suc j) (omega (arith, u))) i (omega (arith, l))

total_bound : (f : Slot → ℕ) (ss : List Slot) → ((s : Slot) → f s ≤ 1) → total f ss ≤ length ss
total_bound f [] h = omega arith
total_bound f (s ∷ ss) h = omega (arith, h s, total_bound f ss h)

kind_bound :
    (kind : Kind)
    → (reads 0 (record { handle = 0; kind = kind; cloexec = false }) ≤ 1)
      × (writes 0 (record { handle = 0; kind = kind; cloexec = false }) ≤ 1)
kind_bound no_kind = (omega arith, omega arith)
kind_bound vfs = (omega arith, omega arith)
kind_bound pipe_r = (omega arith, omega arith)
kind_bound pipe_w = (omega arith, omega arith)
kind_bound socket = (omega arith, omega arith)

pub end_bound : (h : ℕ) (s : Slot) → (reads h s ≤ 1) × (writes h s ≤ 1)
end_bound h s = elim (Bool-cases (s.handle == h)) [
  | inl b ↦ rw b (kind_bound s.kind)
  | inr b ↦ rw b (omega arith, omega arith)
]

few_left :
    (f : Slot → ℕ) (ss : List Slot) (others : ℕ)
    → length ss ≡ 32
    → ((s : Slot) → f s ≤ 1)
    → others + 33 < 2 ^ 32
    → total f ss + others + 1 < 2 ^ 32
few_left f ss others full b h = omega (arith, full, h, total_bound f ss b)

module _ (m : Host) (socket_close : m.State → ℕ → m.State) where
  release_all-IsCounted :
      (n : ℕ) (k : Objects m) (table : List Slot) (fd : ℕ) (readers writers : ℕ → ℕ)
      → IsCounted k.pipes table readers writers
      → IsCounted
          (release_all m socket_close n k table fd).0.pipes
          (release_all m socket_close n k table fd).1
          readers
          writers
  unfolding release_all
  release_all-IsCounted zero k table fd readers writers c = c
  release_all-IsCounted (suc n) k table fd readers writers c =
      release_all-IsCounted n (fd_release m socket_close k table fd).0
        (fd_release m socket_close k table fd).1 (fd + 1) readers writers
        (fd_release-IsCounted m socket_close k table fd readers writers c)

  -- What entering a descriptor for the child does to the pipe at an address.
  abbrev Cloned : ℕ → ℕ → ℕ → Result Slot × Objects m → Type 0
  Cloned h r w (fail _, k) = Holds (k.pipes h) r w
  Cloned h r w (done e, k) = Holds (k.pipes h) (reads h e + r) (writes h e + w)

  clone_one-Holds :
      (k : Objects m) (s : Slot) (h r w : ℕ)
      → h ≢ 0
      → r + 1 < 2 ^ 32
      → w + 1 < 2 ^ 32
      → Holds (k.pipes h) r w
      → Cloned h r w (clone_one m socket_close k s)
  unfolding clone_one
  clone_one-Holds k s h r w ne l u c = elim (Bool-cases ((s.handle == 0) || is_socket s.kind)) [
    | inl b ↦
        rw (b, clone_one) (Holds-cast refl (omega (arith, quiet h 0)) (omega (arith, quiet h 0)) c)
    | inr b ↦
        let shared = share-Shared m socket_close k s h r w s.kind refl l u c in
        rw (b, clone_one)
          (elim (Result-cases (share m socket_close k s).0) [
            | inl (rc, e) ↦ rw e (rw e at shared)
            | inr (a, e) ↦ rw e (rw e at shared)
          ])
  ]

  clone_from-IsCounted :
      (n : ℕ) (k : Objects m) (parent child : List Slot) (fd : ℕ) (readers writers : ℕ → ℕ)
      → length child ≡ 32
      → fd + n ≤ 32
      → Free child fd
      → ((h : ℕ) → (readers h + 33 < 2 ^ 32) × (writers h + 33 < 2 ^ 32))
      → IsCounted k.pipes child readers writers
      → IsCounted
          (clone_from m socket_close n k parent child fd).1.pipes
          (clone_from m socket_close n k parent child fd).2
          readers
          writers
  unfolding clone_from
  clone_from-IsCounted zero k parent child fd readers writers full le free few c = c
  clone_from-IsCounted (suc n) k parent child fd readers writers full le free few c =
      let s = slot parent fd in
      let k1 = (clone_one m socket_close k s).1 in
      let few_readers =
        λ (h : ℕ). few_left (reads h) child (readers h) full (λ x. (end_bound h x).0) (few h).0 in
      let few_writers =
        λ (h : ℕ). few_left (writes h) child (writers h) full (λ x. (end_bound h x).1) (few h).1 in
      let cloned = λ (h : ℕ) (ne : h ≢ 0).
        clone_one-Holds k s h (total (reads h) child + readers h)
          (total (writes h) child + writers h) ne (few_readers h) (few_writers h) (c.counts h ne) in
      let x = result_or (clone_one m socket_close k s).0 empty in
      elim (Result-cases (clone_one m socket_close k s).0) [
        | inl (rc, e) ↦
            rw (e, clone_from)
              (release_all-IsCounted 32 k1 child 0 readers writers
                (record { counts = λ h ne. rw e at (cloned h ne) }))
        | inr (z, e) ↦
            rw (e, clone_from)
              (clone_from-IsCounted n k1 parent (set child fd x) (fd + 1) readers writers
                (length-set child fd x ∙ full) (omega (arith, le)) (Free-set child fd x free) few
                (record {
                  counts = λ h ne.
                      let gone = free_end (slot child fd) h ne (free fd (omega arith)) in
                      Holds-cast refl
                        (omega (
                          arith,
                          total-set (reads h) child fd x empty (omega (arith, le, full)),
                          gone,
                        ))
                        (omega (
                          arith,
                          total-set (writes h) child fd x empty (omega (arith, le, full)),
                          gone,
                        ))
                        (subst
                          (λ y.
                            Holds (k1.pipes h) (reads h y + (total (reads h) child + readers h))
                              (writes h y + (total (writes h) child + writers h)))
                          (sym (ap (λ o. result_or o empty) e)) (rw e at (cloned h ne)));
                }))
      ]

  -- unix_clone_fds_for_spawn for a child with 32 free descriptors, when every pipe has fewer
  -- than 2^32 - 33 ends, those of the parent among them, keeps the counts of all pipes: each
  -- pipe exists exactly while some descriptor names it and counts its readers and writers, also
  -- when a copy fails and the descriptors of the child are released again.
  pub clone_fds-IsCounted :
      (k : Objects m) (parent child : List Slot) (readers writers : ℕ → ℕ)
      → length child ≡ 32
      → ((fd : ℕ) → (slot child fd).handle ≡ 0)
      → ((h : ℕ) → (readers h + 33 < 2 ^ 32) × (writers h + 33 < 2 ^ 32))
      → IsCounted k.pipes child readers writers
      → IsCounted
          (clone_fds m socket_close k parent child).1.pipes
          (clone_fds m socket_close k parent child).2
          readers
          writers
  unfolding clone_fds
  clone_fds-IsCounted k parent child readers writers full free few c =
      clone_from-IsCounted 32 k parent child 0 readers writers full (omega arith) (λ i _. free i)
        few c
