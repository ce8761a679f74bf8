-- ===== src/Sched/Priority.antt =====
-- The dynamic priorities, their bounds, and priority inheritance.
use rodnix.Prelude.{
  ap, ℕ, ◌+◌, ◌<◌, ◌≤◌, ◌≡◌, ◌≢◌, refl, ℤ, pos, negsuc, pos_part, neg_part, true, false, length,
  arith,
}
use rodnix.Sched.State.{Sched}
use rodnix.Sched.RunQueue.{clamp_dyn_priority, thread_effective_priority}
use rodnix.Sched.Control.{inherit_priority, clear_inherit, restored}

pos_part-pos : (z : ℤ) → neg_part z ≡ 0 → z ≡ pos (pos_part z)
pos_part-pos (pos n) h = refl
pos_part-pos (negsuc n) h = ground (arith, h)

clamped :
    (value : ℤ) (base : ℕ)
    → base ≤ 255
    → (neg_part (clamp_dyn_priority value (pos base)) ≡ 0)
      × pos_part (clamp_dyn_priority value (pos base)) ≤ 255
      × base ≤ pos_part (clamp_dyn_priority value (pos base)) + 32
      × pos_part (clamp_dyn_priority value (pos base)) ≤ base + 32
      × ((v : ℕ)
          → value ≡ pos v
          → v ≤ 255
          → base ≤ v + 32
          → v ≤ base + 32
          → pos_part (clamp_dyn_priority value (pos base)) ≡ v)
unfolding clamp_dyn_priority
clamped (pos n) base h = (
  ground arith,
  ground arith,
  ground arith,
  ground arith,
  λ v e a b c. ground (arith, ap pos_part e),
)
clamped (negsuc n) base h = (
  ground arith,
  ground arith,
  ground arith,
  ground arith,
  λ v e a b c. ground (arith, ap neg_part e),
)

-- clamp_dyn_priority for a base priority of 8 bits: the result is between 0 and 255 and at most 32
-- away from the base, and a value that is within these bounds stays as it is.
pub clamp_dyn_priority-bounds :
    (value : ℤ) (base : ℕ)
    → base ≤ 255
    → (n : ℕ) × (clamp_dyn_priority value (pos base) ≡ pos n)
      × n ≤ 255
      × base ≤ n + 32
      × n ≤ base + 32
      × ((v : ℕ) → value ≡ pos v → v ≤ 255 → base ≤ v + 32 → v ≤ base + 32 → n ≡ v)
clamp_dyn_priority-bounds value base h =
    let c = clamp_dyn_priority value (pos base) in
    let (z, a, b, d, e) = clamped value base h in (pos_part c, pos_part-pos c z, a, b, d, e)

-- An inheritance and its end, with room on the stack and no overflow before: the stack and the
-- saved priority are as before, and the mark of an inheritance is off, even when the thread had
-- inherited a priority before.
inherit-clear :
    (s : Sched) (t donor : ℕ)
    → t ≢ 0
    → donor ≢ 0
    → length (s.thread t).inherit_stack < 8
    → (s.thread t).has_inherit_overflow ≡ false
    → (clear_inherit (inherit_priority s t donor) t).thread t
      ≡ record (s.thread t) { has_inherited = false }
unfolding clear_inherit inherit_priority restored
inherit-clear s t donor h h' l o = ground (arith, h, h', l, o)

-- Nested inheritance: a thread that has inherited a priority above its own dynamic one, with a base
-- priority other than 0, room on the stack and no overflow, loses it when a second inheritance
-- ends, although the first has not ended: its effective priority falls to its dynamic one.
pub nested_inherit-drops :
    (s : Sched) (t donor p d : ℕ)
    → t ≢ 0
    → donor ≢ 0
    → length (s.thread t).inherit_stack < 8
    → (s.thread t).has_inherit_overflow ≡ false
    → (s.thread t).base_priority ≢ 0
    → (s.thread t).has_inherited ≡ true
    → (s.thread t).inherited_priority ≡ pos p
    → (s.thread t).dyn_priority ≡ pos d
    → d < p
    → (thread_effective_priority s t ≡ pos p)
      × (thread_effective_priority (clear_inherit (inherit_priority s t donor) t) t ≡ pos d)
unfolding thread_effective_priority
nested_inherit-drops s t donor p d h h' l o b i e f g =
    let c = inherit-clear s t donor h h' l o in
    let th = s.thread t in
    (ground (arith, h, b, i, e, f, g), rw (c, f) (ground (arith, h, b, i, f)))
