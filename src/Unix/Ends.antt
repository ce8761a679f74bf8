-- ===== src/Unix/Ends.antt =====
-- The counts of readers and writers of a pipe against the descriptors that name it, in
-- kernel/unix/fd/unix_fd.c.
use rodnix.Prelude.{
  ℕ, ◌+◌, ◌-◌, ◌≤◌, ◌<◌, ◌^◌, ◌≡◌, ◌≢◌, refl, subst, zero, suc, Bool-cases, true, false, ◌&&◌, ◌==◌,
  Option, none, some, List, [], ◌∷◌, if◌then◌else◌, length, get_or, set, arith, inl, inr,
}
use rodnix.Unix.Pipe.{Pipe, Kind, pipe_r, pipe_w, pipe_retain, pipe_release}
use rodnix.Unix.Fd.{Slot, empty, slot}

-- Whether a descriptor is the reading or the writing end of the pipe at an address: 1 or 0.
abbrev pub reads : ℕ → Slot → ℕ
reads h s = if s.handle == h then elim s.kind [ pipe_r ↦ 1 | _ ↦ 0 ] else 0

abbrev pub writes : ℕ → Slot → ℕ
writes h s = if s.handle == h then elim s.kind [ pipe_w ↦ 1 | _ ↦ 0 ] else 0

abbrev pub total : (Slot → ℕ) → List Slot → ℕ
total f [] = 0
total f (s ∷ ss) = f s + total f ss

-- A pipe with that many ends: none without one.
abbrev pub Holds : Option Pipe → ℕ → ℕ → Type 0
Holds none r w = (r ≡ 0) × (w ≡ 0)
Holds (some p) r w = (p.magic ≡ true) × (p.readers ≡ r) × (p.writers ≡ w) × (1 ≤ r + w)

-- The ends of every pipe are the descriptors in the table and those elsewhere.
pub record IsCounted (pipes : ℕ → Option Pipe) (table : List Slot) (readers writers : ℕ → ℕ)
    : Type 0 where
  pub counts :
      (h : ℕ)
      → h ≢ 0
      → Holds (pipes h) (total (reads h) table + readers h) (total (writes h) table + writers h)

pub total-set :
    (f : Slot → ℕ) (ss : List Slot) (i : ℕ) (s d : Slot)
    → i < length ss
    → total f (set ss i s) + f (get_or ss i d) ≡ total f ss + f s
total-set f [] i s d h = elim h [ ]
total-set f (x ∷ xs) zero s d h = omega arith
total-set f (x ∷ xs) (suc i) s d h = omega (arith, total-set f xs i s d (omega (arith, h)))

pub total-set-empty :
    (f : Slot → ℕ) (ss : List Slot) (i : ℕ)
    → f empty ≡ 0
    → total f (set ss i empty) + f (slot ss i) ≡ total f ss
total-set-empty f [] i z = omega (arith, z)
total-set-empty f (x ∷ xs) zero z = omega (arith, z)
total-set-empty f (x ∷ xs) (suc i) z = omega (arith, total-set-empty f xs i z)

-- The pipe after unix_pipe_release of an end.
abbrev pub released : Option Pipe → Kind → Option Pipe
released none kind = none
released (some p) kind = let (freed, p') = pipe_release p kind in if freed then none else some p'

pub released-reader :
    (o : Option Pipe) (r w : ℕ) → Holds o (suc r) w → Holds (released o pipe_r) r w
unfolding pipe_release
released-reader none r w h = absurd (omega (arith, h.0))
released-reader (some p) r w h = elim (Bool-cases ((p.readers - 1 == 0) && (p.writers == 0))) [
  | inl g ↦ rw (h.0, pipe_release, g) (ground (arith, h, g), ground (arith, h, g))
  | inr g ↦ rw (h.0, pipe_release, g) (refl, omega (arith, h.1), h.2, ground (arith, h, g))
]

pub released-writer :
    (o : Option Pipe) (r w : ℕ) → Holds o r (suc w) → Holds (released o pipe_w) r w
unfolding pipe_release
released-writer none r w h = absurd (omega (arith, h.1))
released-writer (some p) r w h = elim (Bool-cases ((p.readers == 0) && (p.writers - 1 == 0))) [
  | inl g ↦ rw (h.0, pipe_release, g) (ground (arith, h, g), ground (arith, h, g))
  | inr g ↦ rw (h.0, pipe_release, g) (refl, h.1, omega (arith, h.2), ground (arith, h, g))
]

pub retained-reader :
    (p : Pipe) (r w : ℕ)
    → Holds (some p) r w
    → r + 1 < 2 ^ 32
    → Holds (some (pipe_retain p pipe_r)) (r + 1) w
unfolding pipe_retain
retained-reader p r w h l = rw (h.0, pipe_retain) (refl, omega (arith, h.1, l), h.2, omega arith)

pub retained-writer :
    (p : Pipe) (r w : ℕ)
    → Holds (some p) r w
    → w + 1 < 2 ^ 32
    → Holds (some (pipe_retain p pipe_w)) r (w + 1)
unfolding pipe_retain
retained-writer p r w h l = rw (h.0, pipe_retain) (refl, h.1, omega (arith, h.2, l), omega arith)

-- Ends that are neither readers nor writers, and the same counts written in another way.
pub Holds-cast :
    {o o' : Option Pipe} {r r' w w' : ℕ} → o ≡ o' → r ≡ r' → w ≡ w' → Holds o r w → Holds o' r' w'
Holds-cast {o' = o'} {r = r} {r' = r'} {w = w} {w' = w'} p q s h =
    subst (λ x. Holds o' r' x) s (subst (λ x. Holds o' x w) q (subst (λ x. Holds x r w) p h))

pub reads_kind :
    (h : ℕ) (s : Slot) (kind : Kind)
    → s.kind ≡ kind
    → reads h s ≡ reads h (record { handle = s.handle; kind = kind; cloexec = false })
reads_kind h s kind e = rw e refl

pub writes_kind :
    (h : ℕ) (s : Slot) (kind : Kind)
    → s.kind ≡ kind
    → writes h s ≡ writes h (record { handle = s.handle; kind = kind; cloexec = false })
writes_kind h s kind e = rw e refl

pub quiet : (h a : ℕ) → if◌then◌else◌ {A = ℕ} (a == h) 0 0 ≡ 0
quiet h a = ground arith

pub one_end : (h a : ℕ) → (a == h) ≡ true → if◌then◌else◌ {A = ℕ} (a == h) 1 0 ≡ 1
one_end h a b = ground (arith, b)

pub other_end : (h a : ℕ) → (a == h) ≡ false → if◌then◌else◌ {A = ℕ} (a == h) 1 0 ≡ 0
other_end h a b = ground (arith, b)
