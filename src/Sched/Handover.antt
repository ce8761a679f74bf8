-- ===== src/Sched/Handover.antt =====
-- The switch of threads: who runs afterwards.
use rodnix.Prelude.{
  subst, ℕ, ◌+◌, ◌%◌, ◌≡◌, ◌≢◌, refl, sym, ◌∙◌, true, false, Option, some, none, ◌==◌, ◌||◌,
  ne→==_false, Bool-cases, Option-cases, inl, inr, arith,
}
use rodnix.Sched.State.{running, Sched}
use rodnix.Sched.RunQueue.{ready_enqueue, ready_dequeue, dequeue_from, reset_timeslice}
use rodnix.Sched.Reaper.{reap_enqueue, append}
use rodnix.Sched.Switch.{
  switch_address_space, update_tss, activate, is_running, is_dead, Switched, same, resume, panic,
  switch_first, finish_switch, preempt, switch_next, start_running, continue_current, prev_ready,
  switch_from_irq,
}
use rodnix.Sched.Ready.{IsReady, due, ready_enqueue-IsReady}
use rodnix.Sched.Wake.{same_flags}
use rodnix.Sched.Dispatch.{ready_dequeue-IsReady}

-- The queues are in step, and the current thread, not NULL, is RUNNING.
pub record Runs (s : Sched) : Type 0 where
  pub proper : s.current ≢ 0
  pub runs : (s.thread s.current).state ≡ running
  pub in_step : IsReady s

-- An interrupt of the thread `cur` ends in a panic or with a thread that runs; the frame resumed
-- is its own.
unfoldable pub EndsWell : ℕ → Switched → Type 0
EndsWell cur (same s') = (s'.current ≡ cur) × Runs s'
EndsWell cur (resume t s') = (s'.current ≡ t) × Runs s'
EndsWell cur panic = Unit {0}

-- The last two steps of a switch.
started :
    (s : Sched) (t : ℕ)
    → t ≢ 0
    → s.current ≡ t
    → IsReady s
    → ((start_running s t).current ≡ t) × Runs (start_running s t)
unfolding start_running reset_timeslice due
started s t h c w = (
  ground (arith, c),
  record {
    proper = ground (arith, h, c);
    runs = ground (arith, h, c);
    in_step = same_flags s _ (ground arith) (ground arith) (λ u. ground arith) w;
  },
)

continued :
    (s : Sched) (t : ℕ)
    → t ≢ 0
    → s.current ≡ t
    → IsReady s
    → ((continue_current s t).current ≡ t) × Runs (continue_current s t)
unfolding continue_current due
continued s t h c w = (
  ground (arith, c),
  record {
    proper = ground (arith, h, c);
    runs = ground (arith, h, c);
    in_step = same_flags s _ (ground arith) (ground arith) (λ u. ground arith) w;
  },
)

prev_ready-Keeps :
    (s : Sched) (t : ℕ)
    → IsReady s
    → IsReady (prev_ready s t) × ((prev_ready s t).current ≡ s.current)
unfolding prev_ready due
prev_ready-Keeps s t w =
    (same_flags s _ (ground arith) (ground arith) (λ u. ground arith) w, ground arith)

activate-IsReady : (s : Sched) (t : ℕ) → IsReady s → IsReady (activate s t)
unfolding activate switch_address_space update_tss due
activate-IsReady s t w = same_flags s _ (ground arith) (ground arith) (λ u. ground arith) w

preempt-IsReady : (s : Sched) (cur frame : ℕ) → IsReady s → IsReady (preempt s cur frame)
unfolding preempt due
preempt-IsReady s cur frame w = elim (Bool-cases (is_running (s.thread cur).state)) [
  | inl b ↦
      rw (b, preempt)
        (ready_enqueue-IsReady _ cur
          (same_flags s _ (ground arith) (ground arith) (λ u. ground arith) w))
  | inr b ↦ rw (b, preempt) (same_flags s _ refl refl (λ u. ground arith) w)
]

preempt-current : (s : Sched) (cur frame : ℕ) → (preempt s cur frame).current ≡ s.current
unfolding preempt ready_enqueue
preempt-current s cur frame = ground arith

ready_dequeue-current : (s : Sched) → (ready_dequeue s).1.current ≡ s.current
unfolding ready_dequeue dequeue_from
ready_dequeue-current s = ground arith

activate-current : (s : Sched) (t : ℕ) → (activate s t).current ≡ t
unfolding activate switch_address_space update_tss
activate-current s t = ground arith

switch_first-EndsWell : (c0 : ℕ) (s : Sched) → IsReady s → EndsWell c0 (switch_first s)
unfolding switch_first EndsWell
switch_first-EndsWell c0 s w =
    let t = (ready_dequeue s).0 in
    let s1 = (ready_dequeue s).1 in
    elim (Bool-cases (t == 0)) [
      | inl b ↦ rw (b, switch_first) tt
      | inr b ↦
          rw (b, switch_first)
            (started (activate s1 t) t (ground (arith, b)) (activate-current s1 t)
              (activate-IsReady s1 t (ready_dequeue-IsReady s w)))
    ]

-- The write of a dead thread to the ring.
append-Keeps :
    (s : Sched) (t : ℕ) → IsReady s → IsReady (append s t) × ((append s t).current ≡ s.current)
unfolding append due
append-Keeps s t w = (same_flags s _ refl refl (λ u. ground arith) w, refl)

-- What a scheduler_reap_enqueue that returns must keep.
abbrev Reaped : Sched → Option Sched → Type 0
Reaped s none = Unit {0}
Reaped s (some s') = IsReady s' × (s'.current ≡ s.current)

reap_enqueue-Reaped : (s : Sched) (t : ℕ) → IsReady s → Reaped s (reap_enqueue s t)
unfolding reap_enqueue
reap_enqueue-Reaped s t w = elim (Bool-cases ((t == 0) || (s.thread t).reap_queued)) [
  | inl b ↦ rw (b, reap_enqueue) (w, refl)
  | inr b ↦ elim (Bool-cases ((s.reap_tail + 1) % 64 == s.reap_head)) [
    | inl c ↦ rw (b, c, reap_enqueue) tt
    | inr c ↦ rw (b, c, reap_enqueue) (append-Keeps s t w)
  ]
]

finish_switch-EndsWell :
    (c0 : ℕ) (s : Sched) (prev next : ℕ)
    → next ≢ 0
    → IsReady s
    → EndsWell c0 (finish_switch s prev next)
unfolding finish_switch EndsWell
finish_switch-EndsWell c0 s prev next h w =
    let s1 = activate s next in
    let (w2, c2) = prev_ready-Keeps s1 prev (activate-IsReady s next w) in
    let s2 = prev_ready s1 prev in
    let c = c2 ∙ activate-current s next in
    elim (Bool-cases (is_dead (s2.thread prev).state)) [
      | inr b ↦ rw (b, finish_switch) (started s2 next h c w2)
      | inl b ↦ elim (Option-cases (reap_enqueue s2 prev)) [
        | inl e ↦ rw (b, e, finish_switch) tt
        | inr (s3, e) ↦
            let (w3, c3) = subst (Reaped s2) e (reap_enqueue-Reaped s2 prev w2) in
            rw (b, e, finish_switch) (started s3 next h (c3 ∙ c) w3)
      ]
    ]

switch_next-EndsWell :
    (s : Sched) (frame : ℕ)
    → s.current ≢ 0
    → IsReady s
    → EndsWell s.current (switch_next s s.current frame)
unfolding switch_next EndsWell
switch_next-EndsWell s frame h w =
    let cur = s.current in
    let s1 = preempt s cur frame in
    let w2 = ready_dequeue-IsReady s1 (preempt-IsReady s cur frame w) in
    let s2 = (ready_dequeue s1).1 in
    let next = (ready_dequeue s1).0 in
    let c = ready_dequeue-current s1 ∙ preempt-current s cur frame in
    elim (Bool-cases ((next == 0) || (next == cur))) [
      | inl b ↦ elim (Bool-cases (is_dead (s2.thread cur).state)) [
        | inl d ↦ rw (b, d, switch_next) tt
        | inr d ↦ rw (b, d, switch_next) (continued s2 cur h c w2)
      ]
      | inr b ↦ rw (b, switch_next) (finish_switch-EndsWell cur s2 cur next (ground (arith, b)) w2)
    ]

-- scheduler_switch_from_irq with a frame, a reschedule pending, the scheduler running and not
-- entered already, on ready queues, flags and counts in step: unless
-- it panics, the thread on whose stack the interrupt returns is the current one, it is not NULL
-- and RUNNING, and queues, flags and counts are still in step.
pub switch_from_irq-EndsWell :
    (s : Sched) (frame : ℕ)
    → IsReady s
    → s.running ≡ true
    → frame ≢ 0
    → s.in_scheduler ≡ false
    → s.resched_pending ≡ true
    → EndsWell s.current (switch_from_irq s frame)
unfolding switch_from_irq
switch_from_irq-EndsWell s frame w r f i p =
    let s1 = record s { resched_pending = false } in
    let w1 : IsReady s1 = unfold due in same_flags s s1 refl refl (λ u. refl) w in
    let nf = ne→==_false frame 0 f in
    elim (Bool-cases (s.current == 0)) [
      | inl b ↦
          let e : switch_from_irq s frame ≡ switch_first s1 = ground (arith, r, nf, i, b) in
          subst (EndsWell s.current) (sym e) (switch_first-EndsWell s.current s1 w1)
      | inr b ↦
          let e : switch_from_irq s frame ≡ switch_next s1 s.current frame =
            ground (arith, r, nf, i, b, p) in
          subst (EndsWell s.current) (sym e) (switch_next-EndsWell s1 frame (ground (arith, b)) w1)
    ]
