-- ===== src/Ipc/Receive.antt =====
-- kernel/common/ipc.c: ipc_receive and ipc_send_receive. What the other threads and the interrupts
-- do until a blocked thread runs again is a function of the state, `dispatch`.
use rodnix.Prelude.{
  ℕ, zero, suc, ◌/◌, not, ◌&&◌, ◌||◌, Option, some, none, ◌==◌, if◌then◌else◌, add64, Status, is_ok,
  ok, invalid, notfound, denied, timeout,
}
use rodnix.Sched.State.{Sched}
use rodnix.Sched.Control.{inherit_priority, clear_inherit, block}
use rodnix.Sched.WaitQ.{contains, remove, prepare_wait, finish_wait}
use rodnix.Ipc.State.{Allocator, Message, Ipc, with_sched, port_waiters}
use rodnix.Ipc.Queue.{queue_pop}
use rodnix.Ipc.Send.{send, with_header}

-- ipc_get_deadline_ticks; SCHEDULER_TIME_SLICE_MS is 10.
unfoldable pub get_deadline_ticks : Sched → ℕ → ℕ
get_deadline_ticks s ms =
    let n = add64 ms 9 / 10 in
    let ticks = if n == 0 then 1 else n in if ms == 0 then 0 else add64 s.sched_ticks ticks

-- What an operation returns: the message is there when the status is RDNX_OK.
abbrev pub Received : Allocator → Type 0
Received h = Option Message × Status × Ipc h

module _ {h : Allocator} where
  -- The loop of waitq_wait_until, with the rounds that are left.
  unfoldable pub park : (Ipc h → Ipc h) → ℕ → Ipc h → ℕ → ℕ → Option (Ipc h)
  park dispatch zero s q self = none
  park dispatch (suc n) s q self =
      let rest = park dispatch n (dispatch (with_sched s (block s.sched))) q self in
      if contains s.sched q self then rest else some s

  -- waitq_wait_until.
  unfoldable pub wait_until : (Ipc h → Ipc h) → ℕ → Ipc h → ℕ → ℕ → Option (Status × Ipc h)
  wait_until dispatch rounds s q deadline =
      let self = s.sched.current in
      let (rc, sched) = prepare_wait s.sched q deadline in
      let s1 = with_sched s sched in
      if is_ok rc
      then elim (park dispatch rounds s1 q self) [
        | none ↦ none
        | some s2 ↦
            some ((finish_wait s2.sched self).0, with_sched s2 (finish_wait s2.sched self).1)
      ]
      else some (rc, s1)

  -- if (port->owner_thread && self) scheduler_inherit_priority(port->owner_thread, self).
  abbrev pub lend : Ipc h → ℕ → Ipc h
  lend s p =
      let owner = (s.port p).owner_thread in
      if not (owner == 0) && not (s.sched.current == 0)
      then with_sched s (inherit_priority s.sched owner s.sched.current)
      else s

  -- if (port->owner_thread) scheduler_clear_inherit(port->owner_thread).
  abbrev pub give_back : Ipc h → ℕ → Ipc h
  give_back s p =
      let owner = (s.port p).owner_thread in
      if owner == 0 then s else with_sched s (clear_inherit s.sched owner)

  -- if (receiver && waitq_contains(..)) waitq_remove(..).
  abbrev pub leave_waiters : Ipc h → ℕ → ℕ → Ipc h
  leave_waiters s p receiver =
      if not (receiver == 0) && contains s.sched (port_waiters p) receiver
      then with_sched s (remove s.sched (port_waiters p) receiver).1
      else s

  -- The round of ipc_receive after a wait, or the next round.
  unfoldable pub after_wait :
      ℕ → ℕ → Option (Status × Ipc h) → (Ipc h → Option (Received h)) → Option (Received h)
  after_wait p receiver none again = none
  after_wait p receiver (some (ok, s)) again = again s
  after_wait p receiver (some (timeout, s)) again = some (none, timeout, give_back s p)
  after_wait p receiver (some (rc, s)) again =
      some (none, rc, give_back (leave_waiters s p receiver) p)

  -- The loop of ipc_receive, with the rounds that are left; each wait has that many rounds, too.
  unfoldable pub receive_loop : (Ipc h → Ipc h) → ℕ → Ipc h → ℕ → ℕ → ℕ → Option (Received h)
  receive_loop dispatch zero s p receiver deadline = none
  receive_loop dispatch (suc n) s p receiver deadline =
      let (m, rc, s1) = queue_pop s (s.port p).queue in
      let waited = wait_until dispatch n s1 (port_waiters p) deadline in
      let waits =
        after_wait p receiver waited (λ s2. receive_loop dispatch n s2 p receiver deadline) in
      if is_ok rc
      then some (m, ok, give_back (leave_waiters s1 p receiver) p)
      else if receiver == 0
      then some (none, invalid, give_back s1 p)
      else waits

  -- ipc_receive.
  unfoldable pub receive : (Ipc h → Ipc h) → ℕ → Ipc h → ℕ → ℕ → Option (Received h)
  receive dispatch rounds s p ms =
      let v = s.port p in
      let s1 = lend s p in
      let waits =
        receive_loop dispatch rounds s1 p s.sched.current (get_deadline_ticks s1.sched ms) in
      if p == 0
      then some (none, invalid, s)
      else if not v.active
      then some (none, notfound, s)
      else if not (v.owner == 0) && not (s.sched.current_task == v.owner)
      then some (none, denied, s)
      else if v.queue == 0
      then some (none, invalid, give_back s1 p)
      else waits

  -- ipc_send_receive after its call of ipc_send.
  unfoldable pub after_send : (Ipc h → Ipc h) → ℕ → ℕ → ℕ → ℕ → Status × Ipc h → Option (Received h)
  after_send dispatch rounds p reply_port ms (rc, s) =
      if is_ok rc
      then elim (receive dispatch rounds s reply_port ms) [
        | none ↦ none
        | some (m, rc', s') ↦ some (m, rc', give_back s' p)
      ]
      else some (none, rc, give_back s p)

  -- ipc_send_receive.
  unfoldable pub send_receive : (Ipc h → Ipc h) → ℕ → Ipc h → ℕ → Message → ℕ → Option (Received h)
  send_receive dispatch rounds s p m ms =
      if (p == 0) || (m.reply_port == 0)
      then some (none, invalid, s)
      else elim (send (lend s p) p (with_header m)) [
        | none ↦ none
        | some r ↦ after_send dispatch rounds p m.reply_port ms r
      ]
