-- ===== src/Unix/PipeQueue.antt =====
-- The pipes of kernel/unix/fd/unix_fd.c as queues of bytes.
use rodnix.Prelude.{
  ℕ, ◌+◌, ◌-◌, ◌%◌, ◌≤◌, ◌<◌, ◌≡◌, ◌≢◌, refl, sym, ap, ap₂, subst, ◌∙◌, zero, suc, none, some, List,
  [], ◌∷◌, ◌++◌, arith, ◌⊎◌, inl, inr,
}
use rodnix.Fs.Node.{put}
use rodnix.Unix.Pipe.{Pipe, pop, push}

-- The bytes of the ring from a place on.
abbrev ring_bytes : (ℕ → ℕ) → ℕ → ℕ → List ℕ
ring_bytes buf at zero = []
ring_bytes buf at (suc n) = buf at ∷ ring_bytes buf ((at + 1) % 4096) n

-- The bytes that wait in a pipe, in the order in which they were written.
unfoldable pub queued : Pipe → List ℕ
queued p = ring_bytes p.data_at p.tail p.count

pub record IsPipe (p : Pipe) : Type 0 where
  pub tail : p.tail < 4096
  pub bound : p.count ≤ 4096
  pub head : p.head ≡ (p.tail + p.count) % 4096

ring_cases : (n : ℕ) → (n ≡ 0) ⊎ ((k : ℕ) × (n ≡ suc k))
ring_cases zero = inl refl
ring_cases (suc k) = inr (k, refl)

-- A round of the reader takes the first byte.
pub pop-queued :
    (p : Pipe)
    → IsPipe p
    → ((pop p ≡ none) × (queued p ≡ []) × (p.count ≡ 0))
      ⊎ ((b : ℕ) × (p' : Pipe) × (pop p ≡ some (b, p'))
          × IsPipe p'
          × (queued p ≡ b ∷ queued p')
          × (p'.writers ≡ p.writers)
          × (p'.readers ≡ p.readers)
          × (p.count ≡ p'.count + 1))
unfolding pop queued
pop-queued p w = elim (ring_cases p.count) [
  | inl z ↦ inl (ground (arith, z), rw z refl, z)
  | inr (n, e) ↦ inr (
    p.data_at p.tail,
    record p { tail = (p.tail + 1) % 4096; count = p.count - 1 },
    ground (arith, e),
    record {
      tail = omega arith;
      bound = omega (arith, w.bound);
      head = omega (arith, w.head, e, w.tail);
    },
    subst
        (λ c.
          ring_bytes p.data_at p.tail c
          ≡ p.data_at p.tail ∷ ring_bytes p.data_at ((p.tail + 1) % 4096) (c - 1))
        (sym e)
        (ap (λ k. p.data_at p.tail ∷ ring_bytes p.data_at ((p.tail + 1) % 4096) k) (omega arith)),
    refl,
    refl,
    omega (arith, e),
  )
]

ring_bytes-put :
    (buf : ℕ → ℕ) (at n j b : ℕ)
    → at < 4096
    → ((i : ℕ) → i < n → (at + i) % 4096 ≢ j)
    → ring_bytes (put buf j b) at n ≡ ring_bytes buf at n
ring_bytes-put buf at zero j b l h = refl
ring_bytes-put buf at (suc n) j b l h =
    let here : at ≢ j = λ e. h 0 (omega arith) (omega (arith, e, l)) in
    ap₂ (λ x xs. x ∷ xs) (ground (arith, here))
      (ring_bytes-put buf ((at + 1) % 4096) n j b (omega arith)
        (λ i u e. h (i + 1) (omega (arith, u)) (omega (arith, e))))

ring_bytes-last :
    (buf : ℕ → ℕ) (at n : ℕ)
    → at < 4096
    → ring_bytes buf at (suc n) ≡ ring_bytes buf at n ++ buf ((at + n) % 4096) ∷ []
ring_bytes-last buf at zero l = ap (λ k. buf k ∷ []) (omega (arith, l))
ring_bytes-last buf at (suc n) l =
    ap (λ xs. buf at ∷ xs)
      (ring_bytes-last buf ((at + 1) % 4096) n (omega arith)
        ∙ ap (λ k. ring_bytes buf ((at + 1) % 4096) n ++ buf k ∷ []) (omega arith))

absurd_eq : (at n i : ℕ) → at < 4096 → n < 4096 → i < n → (at + i) % 4096 ≢ (at + n) % 4096
absurd_eq at n i l h u e = omega (arith, e, l, h, u)

-- A round of the writer appends its byte.
pub push-queued :
    (p : Pipe) (b : ℕ)
    → IsPipe p
    → p.readers ≢ 0
    → p.count < 4096
    → (p' : Pipe) × (push p b ≡ some p')
      × IsPipe p'
      × (queued p' ≡ queued p ++ b ∷ [])
      × (p'.writers ≡ p.writers)
      × (p'.readers ≡ p.readers)
      × (p'.count ≡ p.count + 1)
unfolding push queued
push-queued p b w r c =
    let apart = λ (i : ℕ) (u : i < p.count). absurd_eq p.tail p.count i w.tail c u in
    (
      record p {
        data_at = put p.data_at p.head b;
        head = (p.head + 1) % 4096;
        count = p.count + 1;
      },
      ground (arith, r, c),
      record { tail = w.tail; bound = omega (arith, c); head = omega (arith, w.head) },
      ap (ring_bytes (put p.data_at p.head b) p.tail) {y = suc p.count} (omega arith)
          ∙ ring_bytes-last (put p.data_at p.head b) p.tail p.count w.tail
          ∙ ap₂ (λ xs y. xs ++ y ∷ [])
              (ring_bytes-put p.data_at p.tail p.count p.head b w.tail
                (λ i u e. apart i u (e ∙ w.head)))
              (ground (arith, w.head)),
      refl,
      refl,
      refl,
    )
