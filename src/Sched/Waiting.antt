-- ===== src/Sched/Waiting.antt =====
-- The wait queues: membership, counts and the order of wake-ups.
use rodnix.Prelude.{
  ap, subst, List-cases, ℕ, ◌+◌, ◌≤◌, suc, zero, ◌≡◌, ◌≢◌, sym, ◌∙◌, List, [], ◌∷◌, ◌==◌, ◌||◌,
  if◌then◌else◌, length, length-append, ==_refl, ne→==_false, Bool-cases, inl, inr, arith,
}
use rodnix.Sched.State.{Sched, unlink}
use rodnix.Sched.Control.{wake}
use rodnix.Sched.WaitQ.{enqueue, remove, dequeue, wake_one, wake_all, take_out, disarm_timeout}
use rodnix.Sched.Ready.{occurs, occurs-append}
use rodnix.Sched.Frame.{wake-Frame}

-- How often a thread must stand in a wait queue.
unfoldable pub waits : Sched → ℕ → ℕ → ℕ
waits s q t = if t == 0 then 0 else if (s.thread t).waitq_owner == q then 1 else 0

-- Each thread stands once in the queue that owns it and in no other, and the counts agree.
pub record IsWaiting (s : Sched) : Type 0 where
  pub member : (q t : ℕ) → q ≢ 0 → occurs t (s.waitq q).threads ≡ waits s q t
  pub counted : (q : ℕ) → q ≢ 0 → length (s.waitq q).threads ≡ (s.waitq q).count

pub occurs-unlink :
    (t u : ℕ) (xs : List ℕ)
    → 1 ≤ occurs t xs
    → occurs u (unlink t xs) + (if t == u then 1 else 0) ≡ occurs u xs
unfolding occurs
occurs-unlink t u [] h = omega (arith, h)
occurs-unlink t u (x ∷ xs) h = elim (Bool-cases (x == t)) [
  | inl b ↦ ground (arith, b)
  | inr b ↦ rw b (ground (arith, b, occurs-unlink t u xs (ground (arith, h, b))))
]

length-unlink : (t : ℕ) (xs : List ℕ) → 1 ≤ occurs t xs → length (unlink t xs) + 1 ≡ length xs
unfolding occurs
length-unlink t [] h = omega (arith, h)
length-unlink t (x ∷ xs) h = elim (Bool-cases (x == t)) [
  | inl b ↦ ground (arith, b)
  | inr b ↦ rw b (ground (arith, b, length-unlink t xs (ground (arith, h, b))))
]

-- waitq_enqueue keeps queues, owners and counts in step, on every reply.
pub enqueue-IsWaiting : (s : Sched) (q t : ℕ) → IsWaiting s → IsWaiting (enqueue s q t).1
unfolding enqueue waits
enqueue-IsWaiting s q t w = record {
  member = λ p u h.
      unfold occurs in
      ground (arith, h, w.member p u h, occurs-append u (s.waitq p).threads (t ∷ []));
  counted = λ p h. ground (arith, h, w.counted p h, length-append (s.waitq p).threads (t ∷ []));
}

-- The step in which a thread leaves its queue.
take_out-IsWaiting :
    (s : Sched) (q t : ℕ)
    → IsWaiting s
    → q ≢ 0
    → t ≢ 0
    → (s.thread t).waitq_owner ≡ q
    → IsWaiting (take_out s q t)
unfolding take_out disarm_timeout waits
take_out-IsWaiting s q t w h z o =
    let m = w.member q t h in
    let in_queue : 1 ≤ occurs t (s.waitq q).threads = ground (arith, m, o, z) in
    record {
      member = λ p u k.
          ground
            (arith, k, h, z, o, w.member p u k, occurs-unlink t u (s.waitq q).threads in_queue);
      counted =
          λ p k. ground (arith, k, h, w.counted p k, length-unlink t (s.waitq q).threads in_queue);
    }

-- waitq_remove keeps queues, owners and counts in step, on every reply.
pub remove-IsWaiting : (s : Sched) (q t : ℕ) → IsWaiting s → IsWaiting (remove s q t).1
unfolding remove
remove-IsWaiting s q t w = elim (Bool-cases ((q == 0) || (t == 0))) [
  | inl b ↦ rw (b, remove) w
  | inr b ↦ elim (Bool-cases ((s.thread t).waitq_owner == q)) [
    | inr c ↦ rw (b, c, remove) w
    | inl c ↦
        rw (b, c, remove)
          (take_out-IsWaiting s q t w (ground (arith, b)) (ground (arith, b)) (ground (arith, c)))
  ]
]

-- What heads a queue is a thread that the queue owns.
record Head (s : Sched) (q t : ℕ) : Type 0 where
  proper : t ≢ 0
  owned : (s.thread t).waitq_owner ≡ q

front_thread :
    (s : Sched) (q t : ℕ) (ts : List ℕ)
    → IsWaiting s
    → q ≢ 0
    → (s.waitq q).threads ≡ t ∷ ts
    → Head s q t
unfolding waits occurs
front_thread s q t ts w h e =
    let m = w.member q t h in
    let k = ap (occurs t) e in
    record { proper = ground (arith, m, k); owned = ground (arith, m, k) }

dequeue-IsWaiting : (s : Sched) (q : ℕ) → q ≢ 0 → IsWaiting s → IsWaiting (dequeue s q).1
unfolding dequeue
dequeue-IsWaiting s q h w = elim (List-cases (s.waitq q).threads) [
  | inl e ↦ rw (e, dequeue) w
  | inr (t, ts, e) ↦
      let k = front_thread s q t ts w h e in
      rw (e, ne→==_false q 0 h, dequeue) (take_out-IsWaiting s q t w h k.proper k.owned)
]

wake-IsWaiting : (s : Sched) (t : ℕ) → IsWaiting s → IsWaiting (wake s t)
unfolding waits
wake-IsWaiting s t w =
    let f = wake-Frame s t in
    record {
      member = λ q u h.
          ap (λ z. occurs u (z q).threads) f.waitq ∙ w.member q u h ∙ ground (arith, f.owner u);
      counted =
          λ q h. subst (λ z. length (z q).threads ≡ (z q).count) (sym f.waitq) (w.counted q h);
    }

-- waitq_wake_one keeps queues, owners and counts in step.
wake_one-IsWaiting : (s : Sched) (q : ℕ) → q ≢ 0 → IsWaiting s → IsWaiting (wake_one s q).1
unfolding wake_one
wake_one-IsWaiting s q h w =
    let d = dequeue-IsWaiting s q h w in
    elim (Bool-cases ((dequeue s q).0 == 0)) [
      | inl b ↦ rw (b, wake_one) d
      | inr b ↦ rw (b, wake_one) (wake-IsWaiting (dequeue s q).1 (dequeue s q).0 d)
    ]

dequeue-first :
    (s : Sched) (q t : ℕ) (ts : List ℕ)
    → IsWaiting s
    → q ≢ 0
    → (s.waitq q).threads ≡ t ∷ ts
    → ((dequeue s q).0 ≡ t) × (((dequeue s q).1.waitq q).threads ≡ ts)
unfolding dequeue take_out disarm_timeout
dequeue-first s q t ts w h e =
    (ground (arith, e, h), rw (e, ne→==_false q 0 h, dequeue) (ground (arith, e, ==_refl t)))

wake_one-none : (s : Sched) (q : ℕ) → (s.waitq q).threads ≡ [] → wake_one s q ≡ (0, s)
unfolding wake_one dequeue
wake_one-none s q e = ground (arith, e)

-- waitq_wake_one takes the first thread of the queue, which is not NULL, and leaves the others.
pub wake_one-first :
    (s : Sched) (q t : ℕ) (ts : List ℕ)
    → IsWaiting s
    → q ≢ 0
    → (s.waitq q).threads ≡ t ∷ ts
    → (t ≢ 0) × ((wake_one s q).0 ≡ t) × (((wake_one s q).1.waitq q).threads ≡ ts)
unfolding wake_one
wake_one-first s q t ts w h e =
    let k = front_thread s q t ts w h e in
    let d = dequeue-first s q t ts w h e in
    let f = wake-Frame (dequeue s q).1 (dequeue s q).0 in
    let g = ap (λ z. (z q).threads) f.waitq in
    (k.proper, ground (arith, d.0, k.proper), ground (arith, d.0, d.1, k.proper, g))

-- waitq_wake_all, with a round for each thread that waits: it returns how many threads waited and
-- leaves the queue empty, with queues, owners and counts in step.
pub wake_all-empties :
    (n : ℕ) (s : Sched) (q : ℕ)
    → IsWaiting s
    → q ≢ 0
    → length (s.waitq q).threads ≤ n
    → ((wake_all n s q).0 ≡ length (s.waitq q).threads)
      × (((wake_all n s q).1.waitq q).threads ≡ [])
      × IsWaiting (wake_all n s q).1
unfolding wake_all
wake_all-empties zero s q w h l = elim (List-cases (s.waitq q).threads) [
  | inl e ↦ (ground (arith, ap length e), e, w)
  | inr (t, ts, e) ↦ ground (arith, ap length e, l)
]
wake_all-empties (suc n) s q w h l = elim (List-cases (s.waitq q).threads) [
  | inl e ↦
      let z = wake_one-none s q e in
      (ground (arith, z, ap length e), ground (arith, z, e), rw (z, ne→==_false q 0 h, wake_all) w)
  | inr (t, ts, e) ↦
      let (p, f, r) = wake_one-first s q t ts w h e in
      let k = ap length e in
      let (a, b, c) =
        wake_all-empties n (wake_one s q).1 q (wake_one-IsWaiting s q h w) h
          (ground (arith, k, l, ap length r)) in
      let hq = ne→==_false q 0 h in
      let ht = ne→==_false t 0 p in
      (
        rw (hq, f, ht, wake_all) (ground (arith, a, k, ap length r)),
        rw (hq, f, ht, wake_all) b,
        rw (hq, f, ht, wake_all) c,
      )
]
