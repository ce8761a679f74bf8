-- ===== src/Unix/PipeLoops.antt =====
-- The loops of unix_fs_read and unix_fs_write on a pipe, in kernel/unix/fd/unix_fd.c.
use rodnix.Prelude.{
  ℕ, ◌+◌, ◌-◌, ◌≤◌, ◌<◌, ◌≡◌, ◌≢◌, refl, sym, ap, ◌∙◌, zero, suc, min, Bool-cases, Option, none,
  some, List, [], ◌∷◌, ◌++◌, append_assoc, append-nil, ltb, take, drop, length, arith, ◌⊎◌, inl,
  inr, Result, done,
}
use rodnix.Unix.Pipe.{Pipe, push, read_loop, write_loop}
use rodnix.Unix.PipeQueue.{IsPipe, queued, pop-queued, push-queued}

push_full : (p : Pipe) (b : ℕ) → 4096 ≤ p.count → push p b ≡ none
unfolding push
push_full p b h = ground (arith, h)

take-nil : (k : ℕ) → take {A = ℕ} k [] ≡ []
take-nil zero = refl
take-nil (suc k) = refl

-- What the loop of the writer comes to.
record Wrote (o : Option (Result ℕ × Pipe)) (p : Pipe) (k : ℕ) (bytes : List ℕ) (total : ℕ)
    : Type 0 where
  p' : Pipe
  returned : o ≡ some (done total, p')
  valid : IsPipe p'
  appended : queued p' ≡ queued p ++ take k bytes

write_loop-Wrote :
    (n : ℕ) (other : Pipe → Pipe) (p : Pipe) (wrote : ℕ) (bytes : List ℕ)
    → IsPipe p
    → p.readers ≢ 0
    → ((p.count < 4096) ⊎ (0 < wrote))
    → length bytes ≤ n
    → Wrote
        (write_loop (suc n) other p wrote bytes)
        p
        (min (length bytes) (4096 - p.count))
        bytes
        (wrote + min (length bytes) (4096 - p.count))
unfolding write_loop
write_loop-Wrote n other p wrote [] w r s h = record {
  p' = p;
  returned = ap (λ k. some (done k, p)) (omega arith);
  valid = w;
  appended =
      sym (append-nil (queued p))
      ∙ ap (λ xs. queued p ++ xs) (sym (take-nil (min 0 (4096 - p.count))));
}
write_loop-Wrote zero other p wrote (b ∷ bs) w r s h = elim h [ ]
write_loop-Wrote (suc n) other p wrote (b ∷ bs) w r s h = elim (Bool-cases (ltb p.count 4096)) [
  | inl c ↦
      let (p1, pushed, w1, q1, _, r1, c1) = push-queued p b w r (ground (arith, c)) in
      let less : p.count < 4096 = ground (arith, c) in
      let rest =
        write_loop-Wrote n other p1 (wrote + 1) bs w1 (λ z. r (sym r1 ∙ z)) (inr (omega arith))
          (omega (arith, h)) in
      record {
        p' = rest.p';
        returned =
            rw (pushed, write_loop)
              (rest.returned ∙ ap (λ k. some (done k, rest.p')) (omega (arith, c1, less)));
        valid = rest.valid;
        appended =
            rest.appended
            ∙ ap (λ xs. xs ++ take (min (length bs) (4096 - p1.count)) bs) q1
            ∙ append_assoc (queued p) (b ∷ []) (take (min (length bs) (4096 - p1.count)) bs)
            ∙ ap (λ k. queued p ++ take k (b ∷ bs)) {x = suc (min (length bs) (4096 - p1.count))}
                (omega (arith, c1, less));
      }
  | inr f ↦
      let full : 4096 ≤ p.count = ground (arith, f) in
      let some_wrote : 0 < wrote = ground (arith, s, full) in
      let left : min (suc (length bs)) (4096 - p.count) ≡ 0 = omega (arith, full) in
      record {
        p' = p;
        returned = rw (push_full p b full, write_loop, left) (ground (arith, r, some_wrote));
        valid = w;
        appended = sym (append-nil (queued p)) ∙ ap (λ k. queued p ++ take k (b ∷ bs)) (sym left);
      }
]

-- What the loop of the reader comes to.
record Took (o : Option (List ℕ × Pipe)) (p : Pipe) (k : ℕ) : Type 0 where
  p' : Pipe
  returned : o ≡ some (take k (queued p), p')
  valid : IsPipe p'
  rest : queued p' ≡ drop k (queued p)

read_loop-Took :
    (n : ℕ) (other : Pipe → Pipe) (p : Pipe) (got k : ℕ)
    → IsPipe p
    → ((p.count ≢ 0) ⊎ ((0 < got) ⊎ (p.writers ≡ 0)))
    → k ≤ n
    → Took (read_loop (suc n) other p got k) p k
unfolding read_loop
read_loop-Took n other p got zero w s h = record { p' = p; returned = refl; valid = w; rest = refl }
read_loop-Took zero other p got (suc k) w s h = elim h [ ]
read_loop-Took (suc n) other p got (suc k) w s h = elim (pop-queued p w) [
  | inl (e, q, z) ↦ record {
    p' = p;
    returned = rw (e, read_loop, q) (ground (arith, s, z));
    valid = w;
    rest = rw q refl;
  }
  | inr (b, p1, e, w1, q, _, _, c) ↦
      let more =
        read_loop-Took n other p1 (got + 1) k w1 (inr (inl (omega arith))) (omega (arith, h)) in
      record {
        p' = more.p';
        returned = rw (e, read_loop, q, more.returned) refl;
        valid = more.valid;
        rest = rw q more.rest;
      }
]

-- unix_fs_write of bytes to a pipe with a well-formed ring that has a reader and is not full ends
-- without a yield, with a round for each byte and one more: it writes as many bytes as fit, replies
-- their number, keeps the ring well formed, and the bytes stand behind those that waited.
pub write_loop-queued :
    (other : Pipe → Pipe) (p : Pipe) (bytes : List ℕ)
    → IsPipe p
    → p.readers ≢ 0
    → p.count < 4096
    → (p' : Pipe) × (write_loop (suc (length bytes)) other p 0 bytes
        ≡ some (done (min (length bytes) (4096 - p.count)), p'))
      × IsPipe p'
      × (queued p' ≡ queued p ++ take (min (length bytes) (4096 - p.count)) bytes)
write_loop-queued other p bytes w r c =
    let o = write_loop-Wrote (length bytes) other p 0 bytes w r (inl c) (omega arith) in
    (o.p', o.returned ∙ ap (λ k. some (done k, o.p')) (omega arith), o.valid, o.appended)

-- unix_fs_read of k bytes from a pipe with a well-formed ring that has bytes or has no writer ends
-- without a yield, with a round for each byte and one more: it returns the first k of the bytes that
-- wait, or all when there are fewer, keeps the ring well formed, and leaves the others.
pub read_loop-queued :
    (other : Pipe → Pipe) (p : Pipe) (k : ℕ)
    → IsPipe p
    → ((p.count ≢ 0) ⊎ (p.writers ≡ 0))
    → (p' : Pipe) × (read_loop (suc k) other p 0 k ≡ some (take k (queued p), p'))
      × IsPipe p'
      × (queued p' ≡ drop k (queued p))
read_loop-queued other p k w s =
    let o =
      read_loop-Took k other p 0 k w (elim s [ inl c ↦ inl c | inr z ↦ inr (inr z) ])
        (omega arith) in
    (o.p', o.returned, o.valid, o.rest)
