-- ===== src/Sched/Stranding.antt =====
-- What a change of the policy leaves in the ready queues of kernel/common/scheduler: ready_dequeue
-- and ready_enqueue after scheduler_set_policy.
use rodnix.Prelude.{
  ap, ℕ, ◌+◌, ◌≡◌, ◌≢◌, refl, ◌∙◌, true, Option, some, none, List, [], ◌∷◌, length, arith,
}
use rodnix.Sched.State.{Sched, Policy}
use rodnix.Sched.RunQueue.{
  dequeue_from, ready_dequeue, single_queue, ready_enqueue, ready_queue_index,
  ready_thread_is_queued,
}
use rodnix.Sched.Control.{set_policy}
use rodnix.Sched.Ready.{IsReady, due, ready_enqueue-IsReady}
use rodnix.Sched.Dispatch.{ready_dequeue-IsReady}

-- Calls in a row: ready_dequeue for none, and ready_enqueue of a thread.
unfoldable pub ready_calls : List (Option ℕ) → Sched → Sched
ready_calls [] s = s
ready_calls (none ∷ cs) s = ready_calls cs (ready_dequeue s).1
ready_calls (some t ∷ cs) s = ready_calls cs (ready_enqueue s t)

-- What calls under a policy with one queue leave alone.
record Stranded (s s' : Sched) : Type 0 where
  single : single_queue s'.policy ≡ true
  in_step : IsReady s'
  others : (q : ℕ) → q ≢ 2 → s'.ready_queues q ≡ s.ready_queues q

dequeue-Stranded :
    (s : Sched) → single_queue s.policy ≡ true → IsReady s → Stranded s (ready_dequeue s).1
unfolding ready_dequeue dequeue_from
dequeue-Stranded s p w = record {
  single = ground (arith, p);
  in_step = ready_dequeue-IsReady s w;
  others = λ q ne. ground (arith, p, ne);
}

enqueue-Stranded :
    (s : Sched) (t : ℕ) → single_queue s.policy ≡ true → IsReady s → Stranded s (ready_enqueue s t)
unfolding ready_enqueue ready_queue_index ready_thread_is_queued
enqueue-Stranded s t p w = record {
  single = ground (arith, p);
  in_step = ready_enqueue-IsReady s t w;
  others = λ q ne. ground (arith, p, ne);
}

calls-Stranded :
    (cs : List (Option ℕ)) (s s' : Sched) → Stranded s s' → Stranded s (ready_calls cs s')
unfolding ready_calls
calls-Stranded [] s s' h = h
calls-Stranded (none ∷ cs) s s' h =
    let d = dequeue-Stranded s' h.single h.in_step in
    calls-Stranded cs s (ready_dequeue s').1 (record {
      single = d.single;
      in_step = d.in_step;
      others = λ q ne. d.others q ne ∙ h.others q ne;
    })
calls-Stranded (some t ∷ cs) s s' h =
    let d = enqueue-Stranded s' t h.single h.in_step in
    calls-Stranded cs s (ready_enqueue s' t) (record {
      single = d.single;
      in_step = d.in_step;
      others = λ q ne. d.others q ne ∙ h.others q ne;
    })

-- A switch to a policy with one queue strands what stands in the other queues, on queues, flags and
-- counts in step: whatever calls of ready_enqueue and ready_dequeue follow, the three other queues
-- stay as they were, and once the default queue is empty ready_dequeue returns NULL, although the
-- count of ready tasks is the number of threads in the three other queues.
pub set_policy-strands :
    (s : Sched) (p : Policy) (cs : List (Option ℕ))
    → IsReady s
    → single_queue p ≡ true
    → (ready_calls cs (set_policy s p)).ready_queues 2 ≡ []
    → let s' = ready_calls cs (set_policy s p) in
      ((ready_dequeue s').0 ≡ 0)
      × (s'.ready_tasks
          ≡ length (s.ready_queues 0) + length (s.ready_queues 1) + length (s.ready_queues 3))
      × ((q : ℕ) → q ≢ 2 → s'.ready_queues q ≡ s.ready_queues q)
unfolding ready_dequeue set_policy dequeue_from due
set_policy-strands s p cs w o e =
    let h = calls-Stranded cs s (set_policy s p) (record {
      single = o;
      in_step = record { once = w.once; counted = w.counted };
      others = λ q _. refl;
    }) in
    (
      ground (arith, h.single, e),
      ground (
        arith,
        h.in_step.counted,
        ap length e,
        ap length (h.others 0 (omega arith)),
        ap length (h.others 1 (omega arith)),
        ap length (h.others 3 (omega arith)),
      ),
      h.others,
    )
