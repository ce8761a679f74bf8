-- ===== src/Unix/EndsRelease.antt =====
-- unix_fd_release and the counts of the ends of pipes, in kernel/unix/fd/unix_fd.c.
use rodnix.Prelude.{
  ℕ, ◌+◌, ◌≡◌, ◌≢◌, refl, sym, ap, ◌∙◌, Bool-cases, true, false, ◌==◌, ==_iff, ==_refl, ne→==_false,
  Option-cases, List, if◌then◌else◌, set, arith, inl, inr,
}
use rodnix.Fs.Host.{Host}
use rodnix.Unix.Pipe.{Kind, no_kind, vfs, pipe_r, pipe_w, socket, pipe_release}
use rodnix.Unix.Fd.{Slot, empty, slot, Objects, fd_release, drop_pipe, drop_object}
use rodnix.Unix.Ends.{
  reads, writes, total, Holds, IsCounted, total-set-empty, released, released-reader,
  released-writer, Holds-cast, reads_kind, writes_kind, quiet, one_end, other_end,
}

bool_differs : true ≢ false
bool_differs e = cc e

module _ (m : Host) (socket_close : m.State → ℕ → m.State) where
  pub drop_pipe-same :
      (k : Objects m) (h : ℕ) (kind : Kind)
      → (drop_pipe m socket_close k h kind).pipes h ≡ released (k.pipes h) kind
  drop_pipe-same k h kind = elim (Option-cases (k.pipes h)) [
    | inl e ↦ rw (e, drop_pipe) e
    | inr (p, e) ↦
        rw (e, drop_pipe)
          (elim (Bool-cases (pipe_release p kind).0) [
            | inl b ↦ rw (b, ==_refl h) refl
            | inr b ↦ rw (b, ==_refl h) refl
          ])
  ]

  drop_pipe-other :
      (k : Objects m) (h q : ℕ) (kind : Kind)
      → h ≢ q
      → (drop_pipe m socket_close k h kind).pipes q ≡ k.pipes q
  drop_pipe-other k h q kind ne = elim (Option-cases (k.pipes h)) [
    | inl e ↦ rw (e, drop_pipe) refl
    | inr (p, e) ↦
        rw (e, drop_pipe)
          (elim (Bool-cases (pipe_release p kind).0) [
            | inl b ↦ rw (b, ne→==_false h q ne) refl
            | inr b ↦ rw (b, ne→==_false h q ne) refl
          ])
  ]

  -- A descriptor of another kind.
  still :
      (k : Objects m) (s : Slot) (h r w : ℕ) (kind : Kind)
      → s.kind ≡ kind
      → reads h (record { handle = s.handle; kind = kind; cloexec = false }) ≡ 0
      → writes h (record { handle = s.handle; kind = kind; cloexec = false }) ≡ 0
      → Holds (k.pipes h) (reads h s + r) (writes h s + w)
      → Holds (k.pipes h) r w
  still k s h r w kind e z y =
      Holds-cast refl (omega (arith, reads_kind h s kind e, z))
        (omega (arith, writes_kind h s kind e, y))

  -- The pipe at an address, when a descriptor of a kind is dropped.
  drop_object-Holds :
      (k : Objects m) (s : Slot) (h r w : ℕ) (kind : Kind)
      → s.kind ≡ kind
      → s.handle ≢ 0
      → Holds (k.pipes h) (reads h s + r) (writes h s + w)
      → Holds ((drop_object m socket_close k s).pipes h) r w
  drop_object-Holds k s h r w no_kind e ne c =
      rw (e, drop_object) (still k s h r w no_kind e (quiet h s.handle) (quiet h s.handle) c)
  drop_object-Holds k s h r w vfs e ne c =
      rw (e, drop_object)
        (elim (Option-cases (k.files s.handle)) [
          | inl q ↦ rw q (still k s h r w vfs e (quiet h s.handle) (quiet h s.handle) c)
          | inr (f, q) ↦ rw q (still k s h r w vfs e (quiet h s.handle) (quiet h s.handle) c)
        ])
  drop_object-Holds k s h r w socket e ne c =
      rw (e, drop_object) (still k s h r w socket e (quiet h s.handle) (quiet h s.handle) c)
  drop_object-Holds k s h r w pipe_r e ne c =
      rw (e, drop_object)
        (elim (Bool-cases (s.handle == h)) [
          | inl b ↦
              let same = (==_iff s.handle h).0 b in
              Holds-cast
                (sym (drop_pipe-same k s.handle pipe_r)
                  ∙ ap (λ q. (drop_pipe m socket_close k s.handle pipe_r).pipes q) same)
                refl refl
                (released-reader (k.pipes s.handle) r w (
                  Holds-cast (ap k.pipes (sym same))
                    (omega (arith, reads_kind h s pipe_r e, one_end h s.handle b))
                    (omega (arith, writes_kind h s pipe_r e, quiet h s.handle)) c))
          | inr b ↦
              let other : s.handle ≢ h =
                λ q. absurd (bool_differs (sym ((==_iff s.handle h).1 q) ∙ b)) in
              Holds-cast (sym (drop_pipe-other k s.handle h pipe_r other))
                (omega (arith, reads_kind h s pipe_r e, other_end h s.handle b))
                (omega (arith, writes_kind h s pipe_r e, quiet h s.handle)) c
        ])
  drop_object-Holds k s h r w pipe_w e ne c =
      rw (e, drop_object)
        (elim (Bool-cases (s.handle == h)) [
          | inl b ↦
              let same = (==_iff s.handle h).0 b in
              Holds-cast
                (sym (drop_pipe-same k s.handle pipe_w)
                  ∙ ap (λ q. (drop_pipe m socket_close k s.handle pipe_w).pipes q) same)
                refl refl
                (released-writer (k.pipes s.handle) r w (
                  Holds-cast (ap k.pipes (sym same))
                    (omega (arith, reads_kind h s pipe_w e, quiet h s.handle))
                    (omega (arith, writes_kind h s pipe_w e, one_end h s.handle b)) c))
          | inr b ↦
              let other : s.handle ≢ h =
                λ q. absurd (bool_differs (sym ((==_iff s.handle h).1 q) ∙ b)) in
              Holds-cast (sym (drop_pipe-other k s.handle h pipe_w other))
                (omega (arith, reads_kind h s pipe_w e, quiet h s.handle))
                (omega (arith, writes_kind h s pipe_w e, other_end h s.handle b)) c
        ])

  no_end : (h : ℕ) → h ≢ 0 → if◌then◌else◌ {A = ℕ} (0 == h) 0 0 ≡ 0
  no_end h ne = quiet h 0

  -- unix_fd_release of any descriptor keeps the counts of all pipes.
  pub fd_release-IsCounted :
      (k : Objects m) (table : List Slot) (fd : ℕ) (readers writers : ℕ → ℕ)
      → IsCounted k.pipes table readers writers
      → IsCounted
          (fd_release m socket_close k table fd).0.pipes
          (fd_release m socket_close k table fd).1
          readers
          writers
  unfolding fd_release
  fd_release-IsCounted k table fd readers writers c =
      let s = slot table fd in
      elim (Bool-cases (s.handle == 0)) [
        | inl b ↦ rw (b, fd_release) c
        | inr b ↦
            rw (b, fd_release)
              (record {
                counts = λ h ne.
                    let hidden =
                      λ (z : s.handle ≡ 0). bool_differs (sym ((==_iff s.handle 0).1 z) ∙ b) in
                    drop_object-Holds k s h (total (reads h) (set table fd empty) + readers h)
                      (total (writes h) (set table fd empty) + writers h) s.kind refl
                      (λ z. absurd (hidden z))
                      (Holds-cast refl
                        (omega (arith, total-set-empty (reads h) table fd (no_end h ne)))
                        (omega (arith, total-set-empty (writes h) table fd (no_end h ne)))
                        (c.counts h ne));
              })
      ]
