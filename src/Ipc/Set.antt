-- ===== src/Ipc/Set.antt =====
-- kernel/common/ipc.c: port sets.
use rodnix.Prelude.{
  ℕ, zero, suc, ◌+◌, ◌*◌, not, ◌&&◌, ◌||◌, Option, some, none, List, [], ◌∷◌, ◌++◌, ◌==◌, leb,
  if◌then◌else◌, length, Status, is_ok, ok, generic,
}
use rodnix.Sched.WaitQ.{init, wake_all}
use rodnix.Sched.State.{unlink}
use rodnix.Ipc.State.{
  Allocator, Message, PortSet, Ipc, write_set, with_sched, sizeof_set, set_waiters,
}
use rodnix.Ipc.Queue.{queue_pop}
use rodnix.Ipc.Port.{ipc_init, has_member}
use rodnix.Ipc.Receive.{Received, get_deadline_ticks, lend, give_back, wait_until}

module _ {h : Allocator} where
  -- port_set_create after ipc_init; 0 is NULL.
  unfoldable pub set_create_ready : Ipc h → ℕ × Ipc h
  set_create_ready s =
      let (p, heap) = h.kmalloc s.heap sizeof_set in
      let s1 = record s { heap = heap } in
      let v : PortSet = record {
        set_id = s.next_set_id;
        owner = s.sched.current_task;
        ports = 0;
        members = [];
        capacity = 0;
      } in
      let s2 = record (write_set s1 p v) {
        next_set_id = s.next_set_id + 1;
        sched = init s.sched (set_waiters p);
        all_port_sets = p ∷ s.all_port_sets;
      } in
      if p == 0 then (0, s1) else (p, s2)

  -- port_set_create.
  unfoldable pub set_create : Ipc h → ℕ × Ipc h
  set_create s = set_create_ready (ipc_init s)

  -- port_set_destroy; waitq_wake_all has a round for each thread that waits and one more.
  unfoldable pub set_destroy : Ipc h → ℕ → Ipc h
  set_destroy s p =
      let v = s.set p in
      let s1 =
        if v.ports == 0
        then s
        else record (write_set s p (record v { ports = 0 })) { heap = h.kfree s.heap v.ports } in
      let rounds = suc (length (s1.sched.waitq (set_waiters p)).threads) in
      let s2 = with_sched s1 (wake_all rounds s1.sched (set_waiters p)).1 in
      let s3 = record s2 { all_port_sets = unlink p s2.all_port_sets; heap = h.kfree s2.heap p } in
      if p == 0 then s else s3

  -- The last write of port_set_add.
  unfoldable pub append_member : Ipc h → ℕ → ℕ → Ipc h
  append_member s set p =
      write_set s set (record (s.set set) { members = (s.set set).members ++ p ∷ [] })

  -- port_set_add where the array is full; -1 is `generic`.
  unfoldable pub grow_and_append : Ipc h → ℕ → ℕ → Status × Ipc h
  grow_and_append s set p =
      let v = s.set set in
      let new_cap = if v.capacity == 0 then 4 else v.capacity * 2 in
      let (ports, heap) = h.krealloc s.heap v.ports (new_cap * 8) in
      let s1 = record s { heap = heap } in
      let s2 = write_set s1 set (record v { ports = ports; capacity = new_cap }) in
      if ports == 0 then (generic, s1) else (ok, append_member s2 set p)

  -- port_set_add.
  unfoldable pub set_add : Ipc h → ℕ → ℕ → Status × Ipc h
  set_add s set p =
      let v = s.set set in
      if (set == 0) || (p == 0)
      then (generic, s)
      else if has_member v.members p
      then (ok, s)
      else if length v.members == v.capacity
      then grow_and_append s set p
      else (ok, append_member s set p)

  -- port_set_remove: the array without the first entry that is the port.
  unfoldable pub set_remove : Ipc h → ℕ → ℕ → Status × Ipc h
  set_remove s set p =
      let v = s.set set in
      if (set == 0) || (p == 0)
      then (generic, s)
      else if has_member v.members p
      then (ok, write_set s set (record v { members = unlink p v.members }))
      else (generic, s)

  -- The inner loop of port_set_receive: a message, or none, and the state.
  unfoldable pub poll_members : Ipc h → List ℕ → Option Message × Ipc h
  poll_members s [] = (none, s)
  poll_members s (p ∷ ps) =
      let v = s.port p in
      let (m, rc, s1) = queue_pop (lend s p) v.queue in
      let skip = (p == 0) || not v.active || (v.queue == 0) in
      let rest = poll_members (if skip then s else give_back s1 p) ps in
      if not skip && is_ok rc then (m, give_back s1 p) else rest

  -- The round of port_set_receive after a wait.
  unfoldable pub set_after_wait :
      Option (Status × Ipc h) → (Ipc h → Option (Received h)) → Option (Received h)
  set_after_wait none again = none
  set_after_wait (some (rc, s)) again = if is_ok rc then again s else some (none, generic, s)

  -- port_set_receive after its poll of the members.
  unfoldable pub set_wait :
      (Ipc h → Ipc h)
      → ℕ
      → ℕ
      → ℕ
      → Option Message × Ipc h
      → (Ipc h → Option (Received h))
      → Option (Received h)
  set_wait dispatch rounds set deadline (some m, s) again = some (some m, ok, s)
  set_wait dispatch rounds set deadline (none, s) again =
      if not (deadline == 0) && leb deadline s.sched.sched_ticks
      then some (none, generic, s)
      else set_after_wait (wait_until dispatch rounds s (set_waiters set) deadline) again

  -- The loop of port_set_receive, with the rounds that are left.
  unfoldable pub set_receive_loop : (Ipc h → Ipc h) → ℕ → Ipc h → ℕ → ℕ → Option (Received h)
  set_receive_loop dispatch zero s set deadline = none
  set_receive_loop dispatch (suc n) s set deadline =
      set_wait dispatch n set deadline (poll_members s (s.set set).members)
        (λ s'. set_receive_loop dispatch n s' set deadline)

  -- port_set_receive.
  unfoldable pub set_receive : (Ipc h → Ipc h) → ℕ → Ipc h → ℕ → ℕ → Option (Received h)
  set_receive dispatch rounds s set ms =
      if set == 0
      then some (none, generic, s)
      else set_receive_loop dispatch rounds s set (get_deadline_ticks s.sched ms)
