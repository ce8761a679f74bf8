-- ===== src/Sched/Timeouts.antt =====
-- waitq_tick: the deadlines of waiting threads.
use rodnix.Prelude.{
  ap, subst, ℕ, ◌+◌, ◌-◌, ◌*◌, ◌/◌, ◌^◌, ◌<◌, ◌≤◌, ◌≡◌, ◌≢◌, refl, sym, ◌∙◌, true, false, List, [],
  ◌∷◌, ◌==◌, ==_iff, Bool-cases, inl, inr, arith,
}
use rodnix.Sched.State.{Sched}
use rodnix.Sched.WaitQ.{
  tick, tick_from, tick_one, expire, unlink_expired, disarm_timeout, deadline_from_timeout_ms,
  contains,
}
use rodnix.Sched.Ready.{occurs}
use rodnix.Sched.Frame.{wake-Frame}

-- An expired thread has no deadline any more.
unlink_expired-disarms :
    (s : Sched) (t : ℕ) → t ≢ 0 → ((unlink_expired s t).thread t).wait_timeout_armed ≡ false
unfolding unlink_expired disarm_timeout contains
unlink_expired-disarms s t h = ground (arith, h)

-- The other threads keep theirs.
unlink_expired-keeps : (s : Sched) (t u : ℕ) → t ≢ u → (unlink_expired s t).thread u ≡ s.thread u
unfolding unlink_expired disarm_timeout contains
unlink_expired-keeps s t u h = ground (arith, h)

-- What the end of a wait leaves of it.
pub record Expired (s : Sched) (u : ℕ) : Type 0 where
  armed : (s.thread u).wait_timeout_armed ≡ false
  owner : (s.thread u).waitq_owner ≡ 0
  timed_out : (s.thread u).wait_timed_out ≡ true

-- Two states in which the wait of a thread is the same.
pub record SameWait (s s' : Sched) (u : ℕ) : Type 0 where
  armed : (s'.thread u).wait_timeout_armed ≡ (s.thread u).wait_timeout_armed
  deadline : (s'.thread u).wait_deadline_tick ≡ (s.thread u).wait_deadline_tick
  owner : (s'.thread u).waitq_owner ≡ (s.thread u).waitq_owner
  timed_out : (s'.thread u).wait_timed_out ≡ (s.thread u).wait_timed_out

unlink_expired-frees :
    (s : Sched) (t : ℕ)
    → t ≢ 0
    → (s.thread t).wait_timeout_armed ≡ true
    → Expired (unlink_expired s t) t
unfolding unlink_expired disarm_timeout contains
unlink_expired-frees s t h a = ground (arith, h, a)

expire-Expired :
    (s : Sched) (t : ℕ) → t ≢ 0 → (s.thread t).wait_timeout_armed ≡ true → Expired (expire s t) t
unfolding expire
expire-Expired s t h a =
    let f = wake-Frame (unlink_expired s t) t in
    let x = unlink_expired-frees s t h a in
    record {
      armed = f.armed t ∙ x.armed;
      owner = f.owner t ∙ x.owner;
      timed_out = f.timed_out t ∙ x.timed_out;
    }

expire-SameWait : (s : Sched) (t u : ℕ) → t ≢ u → SameWait s (expire s t) u
unfolding expire
expire-SameWait s t u h =
    let f = wake-Frame (unlink_expired s t) t in
    let x = unlink_expired-keeps s t u h in
    record {
      armed = f.armed u ∙ ap (λ z. z.wait_timeout_armed) x;
      deadline = f.deadline u ∙ ap (λ z. z.wait_deadline_tick) x;
      owner = f.owner u ∙ ap (λ z. z.waitq_owner) x;
      timed_out = f.timed_out u ∙ ap (λ z. z.wait_timed_out) x;
    }

-- A round for another thread leaves a wait alone.
tick_one-SameWait : (now : ℕ) (s : Sched) (t u : ℕ) → t ≢ u → SameWait s (tick_one s now t) u
unfolding tick_one disarm_timeout
tick_one-SameWait now s t u h = ground (arith, h, expire-SameWait s t u h)

-- An ended wait stays ended.
tick_one-Expired : (now : ℕ) (s : Sched) (t u : ℕ) → Expired s u → Expired (tick_one s now t) u
unfolding tick_one disarm_timeout
tick_one-Expired now s t u x = elim (Bool-cases (t == u)) [
  | inl b ↦ ground (arith, x.armed, x.owner, x.timed_out, b)
  | inr b ↦ ground (
    arith,
    b,
    x.armed,
    x.owner,
    x.timed_out,
    tick_one-SameWait now s t u (λ e. ground (arith, b, e)),
  )
]

tick_from-Expired :
    (now : ℕ) (ts : List ℕ) (s : Sched) (u : ℕ) → Expired s u → Expired (tick_from now ts s) u
unfolding tick_from
tick_from-Expired now [] s u x = x
tick_from-Expired now (t ∷ ts) s u x =
    tick_from-Expired now ts (tick_one s now t) u (tick_one-Expired now s t u x)

tick_one-Expires :
    (now : ℕ) (s : Sched) (u : ℕ)
    → u ≢ 0
    → (s.thread u).wait_timeout_armed ≡ true
    → (s.thread u).wait_deadline_tick ≢ 0
    → (s.thread u).wait_deadline_tick ≤ now
    → Expired (tick_one s now u) u
unfolding tick_one
tick_one-Expires now s u h a d l = ground (arith, a, d, l, expire-Expired s u h a)

-- The walk over a list ends the wait of each thread on it whose deadline has passed.
tick_from-expires :
    (now : ℕ) (ts : List ℕ) (s : Sched) (u : ℕ)
    → u ≢ 0
    → 1 ≤ occurs u ts
    → (s.thread u).wait_timeout_armed ≡ true
    → (s.thread u).wait_deadline_tick ≢ 0
    → (s.thread u).wait_deadline_tick ≤ now
    → Expired (tick_from now ts s) u
unfolding tick_from occurs
tick_from-expires now [] s u h o a d l = ground (arith, o)
tick_from-expires now (t ∷ ts) s u h o a d l = elim (Bool-cases (t == u)) [
  | inl b ↦
      let e = (==_iff t u).0 b in
      tick_from-Expired now ts (tick_one s now t) u
        (subst (λ x. Expired (tick_one s now x) u) (sym e) (tick_one-Expires now s u h a d l))
  | inr b ↦
      let w = tick_one-SameWait now s t u (λ e. ground (arith, b, e)) in
      tick_from-expires now ts (tick_one s now t) u h (ground (arith, o, b)) (w.armed ∙ a)
        (λ z. d (sym w.deadline ∙ z)) (omega (arith, w.deadline, l))
]

-- waitq_tick ends each wait with a timeout armed whose deadline is not 0 and has come, if the
-- thread, not NULL, is on the list of timeouts: afterwards its timeout is not armed, it waits in no
-- queue and it is marked as timed out.
pub tick-expires :
    (s : Sched) (now u : ℕ)
    → u ≢ 0
    → 1 ≤ occurs u s.timeouts
    → (s.thread u).wait_timeout_armed ≡ true
    → (s.thread u).wait_deadline_tick ≢ 0
    → (s.thread u).wait_deadline_tick ≤ now
    → Expired (tick s now) u
unfolding tick
tick-expires s now u h o a d l = tick_from-expires now s.timeouts s u h o a d l

-- A round leaves a wait alone whose deadline is still to come.
tick_one-waits :
    (now : ℕ) (s : Sched) (t u : ℕ)
    → now < (s.thread u).wait_deadline_tick
    → (s.thread u).wait_timeout_armed ≡ true
    → SameWait s (tick_one s now t) u
unfolding tick_one
tick_one-waits now s t u l a = elim (Bool-cases (t == u)) [
  | inl b ↦ ground (arith, l, a, b)
  | inr b ↦ tick_one-SameWait now s t u (λ e. ground (arith, b, e))
]

tick_from-waits :
    (now : ℕ) (ts : List ℕ) (s : Sched) (u : ℕ)
    → now < (s.thread u).wait_deadline_tick
    → (s.thread u).wait_timeout_armed ≡ true
    → SameWait s (tick_from now ts s) u
unfolding tick_from
tick_from-waits now [] s u l a = record {
  armed = refl;
  deadline = refl;
  owner = refl;
  timed_out = refl;
}
tick_from-waits now (t ∷ ts) s u l a =
    let w = tick_one-waits now s t u l a in
    let r =
      tick_from-waits now ts (tick_one s now t) u (omega (arith, w.deadline, l)) (w.armed ∙ a) in
    record {
      armed = r.armed ∙ w.armed;
      deadline = r.deadline ∙ w.deadline;
      owner = r.owner ∙ w.owner;
      timed_out = r.timed_out ∙ w.timed_out;
    }

-- waitq_tick leaves each wait alone that has a timeout armed whose deadline is still to come: the
-- timeout, the deadline, the queue and the mark of the thread stay.
pub tick-waits :
    (s : Sched) (now u : ℕ)
    → now < (s.thread u).wait_deadline_tick
    → (s.thread u).wait_timeout_armed ≡ true
    → SameWait s (tick s now) u
unfolding tick
tick-waits s now u l a = tick_from-waits now s.timeouts s u l a

-- A timeout in milliseconds becomes a deadline in ticks of 10 ms that is rounded up: unless the
-- 64-bit sums wrap, the time to the deadline is at least the timeout and less than 10 ms more.
pub deadline_from_timeout_ms-bounds :
    (s : Sched) (ms : ℕ)
    → ms ≢ 0
    → ms + 9 < 2 ^ 64
    → s.sched_ticks + (ms + 9) / 10 < 2 ^ 64
    → (s.sched_ticks < deadline_from_timeout_ms s ms)
      × (ms ≤ 10 * (deadline_from_timeout_ms s ms - s.sched_ticks))
      × (10 * (deadline_from_timeout_ms s ms - s.sched_ticks) < ms + 10)
unfolding deadline_from_timeout_ms
deadline_from_timeout_ms-bounds s ms h l l' =
    (ground (arith, h, l, l'), ground (arith, h, l, l'), ground (arith, h, l, l'))
