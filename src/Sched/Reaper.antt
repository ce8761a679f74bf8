-- ===== src/Sched/Reaper.antt =====
-- The ring of dead threads of kernel/common/scheduler/reaper.c.
use rodnix.Prelude.{
  ℕ, zero, suc, ◌+◌, ◌-◌, ◌%◌, ◌<◌, ◌≤◌, ◌≡◌, ◌≢◌, refl, sym, ap, ap₂, ◌∙◌, true, false, Option,
  some, none, List, [], ◌∷◌, ◌++◌, ◌==◌, ◌||◌, ltb, if◌then◌else◌, Bool-cases, ne→==_false, ==_refl,
  ◌⊎◌, inl, inr, add64, arith,
}
use rodnix.Sched.State.{Sched, put, set_thread}

-- scheduler_reap_queue_len; REAP_QUEUE_SIZE is 64.
unfoldable pub reap_queue_len : Sched → ℕ
reap_queue_len s = (s.reap_tail + 64 - s.reap_head) % 64

-- scheduler_reap_peek; the thread is 0 if there is none.
unfoldable pub reap_peek : Sched → ℕ
reap_peek s = if s.reap_head == s.reap_tail then 0 else s.reap_queue s.reap_head

-- scheduler_reap_dequeue.
unfoldable pub reap_dequeue : Sched → ℕ × Sched
reap_dequeue s =
    let taken = record s {
      reap_queue = put s.reap_queue s.reap_head 0;
      reap_head = (s.reap_head + 1) % 64;
    } in
    if s.reap_head == s.reap_tail then (0, s) else (s.reap_queue s.reap_head, taken)

-- The end of scheduler_reap_enqueue: the longest queue so far.
abbrev note_length : Sched → Sched
note_length s =
    let n = reap_queue_len s in record s { reap_hwm = if ltb s.reap_hwm n then n else s.reap_hwm }

-- The write of scheduler_reap_enqueue; REAP_GRACE_TICKS is 128.
unfoldable pub append : Sched → ℕ → Sched
append s t =
    let th' = record (s.thread t) {
      reap_after_tick = add64 s.sched_ticks 128;
      reap_queued = true;
    } in
    note_length (record (set_thread s t th') {
      reap_queue = put s.reap_queue s.reap_tail t;
      reap_tail = (s.reap_tail + 1) % 64;
      reap_enqueued = add64 s.reap_enqueued 1;
    })

-- scheduler_reap_enqueue: none is the panic on a full ring.
unfoldable pub reap_enqueue : Sched → ℕ → Option Sched
reap_enqueue s t =
    let next_tail = (s.reap_tail + 1) % 64 in
    if (t == 0) || (s.thread t).reap_queued
    then some s
    else if next_tail == s.reap_head
    then none
    else some (append s t)

-- The threads of the ring, first to last: `n` of them from slot `h` on.
unfoldable pub slots : (ℕ → ℕ) → ℕ → ℕ → List ℕ
slots f h zero = []
slots f h (suc n) = f h ∷ slots f ((h + 1) % 64) n

unfoldable pub contents : Sched → List ℕ
contents s = slots s.reap_queue s.reap_head (reap_queue_len s)

-- Both indices are slots of the ring.
pub record IsRing (s : Sched) : Type 0 where
  pub head : s.reap_head < 64
  pub tail : s.reap_tail < 64

-- A write at the slot behind a stretch, or further on, is not seen in it.
slots-put :
    (f : ℕ → ℕ) (h n i v : ℕ)
    → h < 64
    → i < 64
    → n ≤ (i + 64 - h) % 64
    → slots (put f i v) h n ≡ slots f h n
unfolding slots
slots-put f h zero i v a b c = refl
slots-put f h (suc n) i v a b c =
    let ne : i ≢ h = λ e. omega (arith, a, b, c, e) in
    ap₂ (λ x xs. x ∷ xs) (rw (ne→==_false i h ne) refl)
      (slots-put f ((h + 1) % 64) n i v (omega arith) b (omega (arith, a, b, c)))

-- One slot more is the slot behind.
slots-suc :
    (f : ℕ → ℕ) (h n : ℕ) → h < 64 → slots f h (n + 1) ≡ slots f h n ++ f ((h + n) % 64) ∷ []
unfolding slots
slots-suc f h zero a = let e : h ≡ (h + 0) % 64 = omega (arith, a) in ap (λ i. f i ∷ []) e
slots-suc f h (suc n) a =
    let c : suc n + 1 ≡ suc (n + 1) = omega arith in
    let e : ((h + 1) % 64 + n) % 64 ≡ (h + suc n) % 64 = omega (arith, a) in
    ap (slots f h) c
    ∙ ap (λ xs. f h ∷ xs)
        (slots-suc f ((h + 1) % 64) n (omega arith)
          ∙ ap (λ i. slots f ((h + 1) % 64) n ++ f i ∷ []) e)

-- scheduler_reap_enqueue of a thread that is not queued: it panics exactly when 63 threads are in
-- the ring, and otherwise the thread comes last behind the threads that were there.
pub reap_enqueue-contents :
    (s : Sched) (t : ℕ)
    → IsRing s
    → t ≢ 0
    → (s.thread t).reap_queued ≡ false
    → ((reap_queue_len s ≡ 63) × (reap_enqueue s t ≡ none))
      ⊎ ((s' : Sched) × (reap_enqueue s t ≡ some s')
          × IsRing s'
          × (contents s' ≡ contents s ++ t ∷ []))
unfolding reap_enqueue append contents reap_queue_len
reap_enqueue-contents s t w h q =
    let th = s.reap_head in
    let tl = s.reap_tail in
    let f = put s.reap_queue tl t in
    let n = (tl + 64 - th) % 64 in
    let z = ne→==_false t 0 h in
    elim (Bool-cases ((tl + 1) % 64 == th)) [
      | inl b ↦ inl (ground (arith, b, w.head, w.tail), rw (z, q, b, reap_enqueue) refl)
      | inr b ↦
          let longer : ((tl + 1) % 64 + 64 - th) % 64 ≡ n + 1 = ground (arith, b, w.head, w.tail) in
          let last : (th + n) % 64 ≡ tl = omega (arith, w.head, w.tail) in
          inr (
            append s t,
            rw (z, q, b, reap_enqueue) refl,
            record { head = w.head; tail = omega arith },
            ap (slots f th) longer
                ∙ slots-suc f th n w.head
                ∙ ap₂ (λ xs x. xs ++ x ∷ [])
                    (slots-put s.reap_queue th n tl t w.head w.tail (omega arith))
                    (ap f last ∙ rw (==_refl tl) refl),
          )
    ]

-- scheduler_reap_dequeue takes the first thread of the ring, and scheduler_reap_peek shows it; on
-- an empty ring both return NULL.
pub reap_dequeue-contents :
    (s : Sched)
    → IsRing s
    → ((contents s ≡ []) × (reap_peek s ≡ 0) × (reap_dequeue s ≡ (0, s)))
      ⊎ (IsRing (reap_dequeue s).1
          × (reap_peek s ≡ (reap_dequeue s).0)
          × (contents s ≡ (reap_dequeue s).0 ∷ contents (reap_dequeue s).1))
unfolding reap_peek reap_dequeue contents slots reap_queue_len
reap_dequeue-contents s w = elim (Bool-cases (s.reap_head == s.reap_tail)) [
  | inl b ↦
      let none_in : (s.reap_tail + 64 - s.reap_head) % 64 ≡ 0 = ground (arith, b, w.head, w.tail) in
      inl (ap (slots s.reap_queue s.reap_head) none_in, ground (arith, b), ground (arith, b))
  | inr b ↦
      let h' = (s.reap_head + 1) % 64 in
      let m = (s.reap_tail + 64 - h') % 64 in
      let one_more : (s.reap_tail + 64 - s.reap_head) % 64 ≡ suc m =
        ground (arith, b, w.head, w.tail) in
      inr (
        rw (b, reap_dequeue) record { head = omega arith; tail = w.tail },
        rw (b, reap_peek, reap_dequeue) refl,
        rw (b, reap_dequeue)
            (ap (slots s.reap_queue s.reap_head) one_more
              ∙ ap (λ xs. s.reap_queue s.reap_head ∷ xs)
                  (sym (
                    slots-put s.reap_queue h' m s.reap_head 0 (omega arith) w.head
                      (omega (arith, w.head))))),
      )
]
