-- ===== src/Ipc/Send.antt =====
-- kernel/common/ipc.c: ipc_send.
use rodnix.Prelude.{
  ℕ, zero, suc, Bool, true, false, not, ◌||◌, Option, some, none, List, [], ◌∷◌, ◌==◌, ltb,
  if◌then◌else◌, add32, take, Status, is_ok, ok, invalid, notfound, denied, busy,
}
use rodnix.Sched.WaitQ.{wake_one}
use rodnix.Ipc.State.{
  Allocator, Message, Ipc, write_port, with_sched, pred32, sizeof_message, msg_max_size,
  max_ports_per_msg, port_waiters,
}
use rodnix.Ipc.Queue.{queue_push}
use rodnix.Ipc.Port.{port_lookup, wake_port_sets_for_port}

-- The ids of the ports a message carries.
unfoldable pub ids_from : (ℕ → ℕ) → ℕ → ℕ → List ℕ
ids_from ports i zero = []
ids_from ports i (suc n) = ports i ∷ ids_from ports (suc i) n

-- hdr = RDNX_ABI_INIT(ipc_message_t).
abbrev pub with_header : Message → Message
with_header m = record m { version = 1; size = sizeof_message }

module _ {h : Allocator} where
  -- p->ref_count++.
  unfoldable pub retain : Ipc h → ℕ → Ipc h
  retain s p = write_port s p (record (s.port p) { ref_count = add32 (s.port p).ref_count 1 })

  -- if (q) q->ref_count--.
  unfoldable pub unretain : Ipc h → ℕ → Ipc h
  unretain s p =
      let s' = write_port s p (record (s.port p) { ref_count = pred32 (s.port p).ref_count }) in
      if p == 0 then s else s'

  -- The loop of ipc_send over the ports of the message: whether it reached the end, how many
  -- ports it counted, and the state.
  unfoldable pub bump : Ipc h → List ℕ → Bool × ℕ × Ipc h
  bump s [] = (true, 0, s)
  bump s (id ∷ ids) =
      let p = port_lookup s id in
      let (whole, bumped, s') = bump (retain s p) ids in
      if (p == 0) || not (s.port p).active then (false, 0, s) else (whole, suc bumped, s')

  -- Its rollback loops.
  unfoldable pub rollback : Ipc h → List ℕ → Ipc h
  rollback s [] = s
  rollback s (id ∷ ids) = rollback (unretain s (port_lookup s id)) ids

  -- ipc_send after the push, by what ipc_queue_push returned.
  unfoldable pub after_push : ℕ → Status → Ipc h → List ℕ → Status × Ipc h
  after_push p rc s ids =
      let s1 = with_sched s (wake_one s.sched (port_waiters p)).1 in
      if is_ok rc then (ok, wake_port_sets_for_port s1 p) else (busy, rollback s ids)

  -- ipc_send with g_port_table_lock held, on.
  unfoldable pub send_locked : Ipc h → ℕ → Message → Option (Status × Ipc h)
  send_locked s p m =
      let ids = ids_from m.ports 0 m.port_count in
      let (whole, bumped, s1) = bump s ids in
      if whole
      then elim (queue_push s1 (s1.port p).queue m) [
        | none ↦ none
        | some (rc, s2) ↦ some (after_push p rc s2 ids)
      ]
      else some (invalid, rollback s1 (take bumped ids))

  -- ipc_send; none is a panic.
  unfoldable pub send : Ipc h → ℕ → Message → Option (Status × Ipc h)
  send s p m =
      let v = s.port p in
      if p == 0
      then some (invalid, s)
      else if not v.active
      then some (notfound, s)
      else if not v.send_right
      then some (denied, s)
      else if ltb msg_max_size m.msg_size || ltb max_ports_per_msg m.port_count || (v.queue == 0)
      then some (invalid, s)
      else send_locked s p (with_header m)
