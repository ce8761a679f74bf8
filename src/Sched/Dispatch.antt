-- ===== src/Sched/Dispatch.antt =====
-- ready_dequeue: which thread runs next.
use rodnix.Prelude.{
  ap, subst, List-cases, Option-cases, ℕ, ◌<◌, ◌≤◌, suc, zero, ◌≡◌, ◌≢◌, ◌↔◌, sym, ◌∙◌, true, false,
  some, none, List, [], length, ==_refl, Bool-cases, inl, inr, arith,
}
use rodnix.Sched.State.{Sched, put}
use rodnix.Sched.RunQueue.{dequeue_from, ready_dequeue, chosen, starving, is_empty, single_queue}
use rodnix.Sched.Ready.{IsReady, occurs, due, sum, sum-put, first-due, dequeue_from-IsReady}

chosen_lt : (s : Sched) (q : ℕ) → chosen s ≡ some q → q < 4
unfolding chosen
chosen_lt s q h = ground (arith, h)

-- ready_dequeue keeps the queues, the flags and the count in step.
pub ready_dequeue-IsReady : (s : Sched) → IsReady s → IsReady (ready_dequeue s).1
unfolding ready_dequeue
ready_dequeue-IsReady s w = elim (Bool-cases (single_queue s.policy)) [
  | inl b ↦ rw (b, ready_dequeue) (dequeue_from-IsReady s 2 w (omega arith))
  | inr b ↦ elim (Option-cases (chosen s)) [
    | inl e ↦ rw (b, ready_dequeue, e) w
    | inr (q, e) ↦ rw (b, ready_dequeue, e) (dequeue_from-IsReady s q w (chosen_lt s q e))
  ]
]

-- A chosen queue holds a thread, and the queues above it are empty unless it starves.
chosen-holds : (s : Sched) (q : ℕ) → chosen s ≡ some q → is_empty (s.ready_queues q) ≡ false
unfolding chosen starving
chosen-holds s q h = ground (arith, h)

chosen-order :
    (s : Sched) (q b : ℕ)
    → chosen s ≡ some q
    → q < b
    → b < 4
    → is_empty (s.ready_queues b) ≡ false
    → starving s q ≡ true
unfolding chosen
chosen-order s q zero h l l' e = ground (arith, l')
chosen-order s q (suc zero) h l l' e = ground (arith, h, e)
chosen-order s q (suc (suc zero)) h l l' e = ground (arith, h, e)
chosen-order s q (suc (suc (suc zero))) h l l' e = ground (arith, h, e)
chosen-order s q (suc (suc (suc (suc b)))) h l l' e = ground (arith, l')

chosen-none : (s : Sched) (b : ℕ) → chosen s ≡ none → b < 4 → is_empty (s.ready_queues b) ≡ true
unfolding chosen
chosen-none s zero h l = ground (arith, h)
chosen-none s (suc zero) h l = ground (arith, h)
chosen-none s (suc (suc zero)) h l = ground (arith, h)
chosen-none s (suc (suc (suc zero))) h l = ground (arith, h)
chosen-none s (suc (suc (suc (suc b)))) h l = ground (arith, l)

-- An empty scheduler is one without a ready task.
none-ready :
    (s : Sched)
    → IsReady s
    → ((b : ℕ) → b < 4 → is_empty (s.ready_queues b) ≡ true)
    → s.ready_tasks ≡ 0
none-ready s w h =
    ground
      (arith, w.counted, h 0 (omega arith), h 1 (omega arith), h 2 (omega arith), h 3 (omega arith))

-- What stands behind a choice: a thread that heads its queue and is the one taken.
record Taken (s : Sched) (q : ℕ) : Type 0 where
  t : ℕ
  heads : 1 ≤ occurs t (s.ready_queues q)
  proper : t ≢ 0
  busy : 1 ≤ s.ready_tasks
  taken : (ready_dequeue s).0 ≡ t

le_sum : (f : List ℕ → ℕ) (rq : ℕ → List ℕ) (q : ℕ) → q < 4 → f (rq q) ≤ sum f rq
le_sum f rq zero h = omega arith
le_sum f rq (suc zero) h = omega arith
le_sum f rq (suc (suc zero)) h = omega arith
le_sum f rq (suc (suc (suc zero))) h = omega arith
le_sum f rq (suc (suc (suc (suc q)))) h = omega arith

chosen-Taken :
    (s : Sched) (q : ℕ) → IsReady s → single_queue s.policy ≡ false → chosen s ≡ some q → Taken s q
unfolding ready_dequeue dequeue_from due
chosen-Taken s q w b h = elim (List-cases (s.ready_queues q)) [
  | inl e ↦ ground (arith, chosen-holds s q h, ap is_empty e)
  | inr (t, ts, e) ↦
      let l = chosen_lt s q h in
      let d = first-due s q t ts w l e in
      record {
        t = t;
        heads = unfold occurs in ground (arith, ap (occurs t) e, ==_refl t);
        proper = ground (arith, d);
        busy = ground (arith, w.counted, ap length e, le_sum length s.ready_queues q l);
        taken = ground (arith, b, h, e);
      }
]

-- With a policy that uses all four queues, on queues, flags and counts in step: ready_dequeue
-- returns NULL exactly when the count of ready tasks is 0, so no ready thread is overlooked.
pub ready_dequeue-conserves :
    (s : Sched)
    → IsReady s
    → single_queue s.policy ≡ false
    → ((ready_dequeue s).0 ≡ 0) ↔ (s.ready_tasks ≡ 0)
unfolding ready_dequeue
ready_dequeue-conserves s w h = elim (Option-cases (chosen s)) [
  | inl e ↦ (λ _. none-ready s w (λ b l. chosen-none s b e l), λ _. ground (arith, h, e))
  | inr (q, e) ↦
      let k = chosen-Taken s q w h e in
      (λ z. ground (arith, z, k.taken, k.proper), λ z. ground (arith, z, k.busy))
]

-- A thread stands in one queue at most.
one-queue :
    (s : Sched) (t q q' : ℕ)
    → IsReady s
    → q < 4
    → q' < 4
    → 1 ≤ occurs t (s.ready_queues q)
    → 1 ≤ occurs t (s.ready_queues q')
    → q ≡ q'
unfolding due occurs
one-queue s t q q' w l l' h h' = ground (
  arith,
  w.once t,
  le_sum (occurs t) (put s.ready_queues q []) q' l',
  sum-put (occurs t) s.ready_queues q [] l,
  h,
  h',
)

-- The order of service with a policy that uses all four queues, on queues, flags and counts in
-- step: if ready_dequeue returns a thread that stands in bucket `q` while a higher bucket is not empty, then bucket `q` has been
-- starving for 500 ticks.
pub ready_dequeue-order :
    (s : Sched) (q b : ℕ)
    → IsReady s
    → single_queue s.policy ≡ false
    → q < b
    → b < 4
    → is_empty (s.ready_queues b) ≡ false
    → 1 ≤ occurs (ready_dequeue s).0 (s.ready_queues q)
    → starving s q ≡ true
ready_dequeue-order s q b w h l l' e o = elim (Option-cases (chosen s)) [
  | inl n ↦ ground (arith, e, chosen-none s b n l')
  | inr (q', c) ↦
      let k = chosen-Taken s q' w h c in
      let o' = subst (λ x. 1 ≤ occurs x (s.ready_queues q)) k.taken o in
      let same = one-queue s k.t q q' w (omega (arith, l, l')) (chosen_lt s q' c) o' k.heads in
      chosen-order s q b (c ∙ ap some (sym same)) l l' e
]
