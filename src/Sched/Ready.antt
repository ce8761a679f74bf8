-- ===== src/Sched/Ready.antt =====
-- The ready queues and the flags and the count that the threads and the statistics keep of them.
use rodnix.Prelude.{
  ap, List-cases, ℕ, ◌+◌, ◌<◌, ◌≤◌, suc, zero, ◌≡◌, List, [], ◌∷◌, ◌++◌, ◌==◌, if◌then◌else◌,
  length, length-append, ==_refl, inl, inr, arith,
}
use rodnix.Sched.State.{Sched, put}
use rodnix.Sched.RunQueue.{ready_enqueue, dequeue_from, ready_queue_index, ready_thread_is_queued}

-- How often a thread stands in a list.
unfoldable pub occurs : ℕ → List ℕ → ℕ
occurs t [] = 0
occurs t (x ∷ xs) = (if x == t then 1 else 0) + occurs t xs

-- A sum over the four queues.
abbrev pub sum : (List ℕ → ℕ) → (ℕ → List ℕ) → ℕ
sum f rq = f (rq 0) + f (rq 1) + f (rq 2) + f (rq 3)

-- How often a thread must stand in the queues.
unfoldable pub due : Sched → ℕ → ℕ
due s t = if t == 0 then 0 else if (s.thread t).ready_queued then 1 else 0

-- Each thread that is flagged stands once in the queues, no other one does, NULL neither, and
-- the statistics count them.
pub record IsReady (s : Sched) : Type 0 where
  pub once : (t : ℕ) → sum (occurs t) s.ready_queues ≡ due s t
  pub counted : sum length s.ready_queues ≡ s.ready_tasks

pub occurs-append : (t : ℕ) (xs ys : List ℕ) → occurs t (xs ++ ys) ≡ occurs t xs + occurs t ys
unfolding occurs
occurs-append t [] ys = omega arith
occurs-append t (x ∷ xs) ys = ground (arith, occurs-append t xs ys)

-- What one written queue does to a sum.
pub sum-put :
    (f : List ℕ → ℕ) (rq : ℕ → List ℕ) (q : ℕ) (v : List ℕ)
    → q < 4
    → sum f (put rq q v) + f (rq q) ≡ f v + sum f rq
sum-put f rq zero v h = omega arith
sum-put f rq (suc zero) v h = omega arith
sum-put f rq (suc (suc zero)) v h = omega arith
sum-put f rq (suc (suc (suc zero))) v h = omega arith
sum-put f rq (suc (suc (suc (suc q)))) v h = omega arith

pub index_lt : (s : Sched) (t : ℕ) → ready_queue_index s t < 4
unfolding ready_queue_index
index_lt s t = ground arith

-- ready_enqueue keeps the queues, the flags and the count in step.
pub ready_enqueue-IsReady : (s : Sched) (t : ℕ) → IsReady s → IsReady (ready_enqueue s t)
unfolding ready_enqueue ready_thread_is_queued due
ready_enqueue-IsReady s t w =
    let q = ready_queue_index s t in
    let v = s.ready_queues q ++ t ∷ [] in
    record {
      once = λ u.
          unfold occurs in
          ground (
            arith,
            w.once u,
            occurs-append u (s.ready_queues q) (t ∷ []),
            sum-put (occurs u) s.ready_queues q v (index_lt s t),
          );
      counted = ground (
        arith,
        w.counted,
        length-append (s.ready_queues q) (t ∷ []),
        sum-put length s.ready_queues q v (index_lt s t),
      );
    }

-- What one queue holds is due.
pub occurs-due : (s : Sched) (t q : ℕ) → IsReady s → q < 4 → occurs t (s.ready_queues q) ≤ due s t
occurs-due s t zero w h = omega (arith, w.once t)
occurs-due s t (suc zero) w h = omega (arith, w.once t)
occurs-due s t (suc (suc zero)) w h = omega (arith, w.once t)
occurs-due s t (suc (suc (suc zero))) w h = omega (arith, w.once t)
occurs-due s t (suc (suc (suc (suc q)))) w h = omega arith

-- A thread that heads a queue is not NULL and is flagged.
pub first-due :
    (s : Sched) (q t : ℕ) (ts : List ℕ)
    → IsReady s
    → q < 4
    → s.ready_queues q ≡ t ∷ ts
    → 1 ≤ due s t
first-due s q t ts w h e =
    unfold occurs in ground (arith, occurs-due s t q w h, ap (occurs t) e, ==_refl t)

pub dequeue_from-IsReady : (s : Sched) (q : ℕ) → IsReady s → q < 4 → IsReady (dequeue_from s q).1
unfolding dequeue_from due
dequeue_from-IsReady s q w h = elim (List-cases (s.ready_queues q)) [
  | inl e ↦ rw (e, dequeue_from) w
  | inr (t, ts, e) ↦
      rw (e, dequeue_from)
        record {
          once = λ u.
              unfold occurs in
              ground (
                arith,
                w.once u,
                ap (occurs u) e,
                first-due s q t ts w h e,
                sum-put (occurs u) s.ready_queues q ts h,
              );
          counted = ground (arith, w.counted, ap length e, sum-put length s.ready_queues q ts h);
        }
]
