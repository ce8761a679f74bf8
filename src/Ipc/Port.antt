-- ===== src/Ipc/Port.antt =====
-- kernel/common/ipc.c: the ports and the table of ports.
use rodnix.Prelude.{
  ℕ, suc, ◌+◌, ◌-◌, Bool, true, false, not, ◌&&◌, ◌||◌, List, [], ◌∷◌, ◌==◌, ltb, if◌then◌else◌,
  add32, length, Status, ok, generic,
}
use rodnix.Sched.State.{Sched, put}
use rodnix.Sched.WaitQ.{init, wake_one, wake_all}
use rodnix.Ipc.State.{
  Allocator, Message, PortType, control, Port, Ipc, write_port, with_sched, max_ports, sizeof_port,
  port_waiters, set_waiters,
}
use rodnix.Ipc.Queue.{queue_create, queue_destroy}

-- port_table_index is not -1.
unfoldable pub is_index : ℕ → Bool
is_index id = not ((id == 0) || ltb max_ports id)

-- port_set_contains_port, and the search of port_set_add, on the members of a set.
unfoldable pub has_member : List ℕ → ℕ → Bool
has_member [] p = false
has_member (x ∷ xs) p = (x == p) || has_member xs p

module _ {h : Allocator} where
  -- port_lookup; 0 is NULL.
  unfoldable pub port_lookup : Ipc h → ℕ → ℕ
  port_lookup s id = if is_index id then s.port_table id else 0

  -- The loop of ipc_wake_port_sets_for_port.
  unfoldable pub wake_sets : Ipc h → List ℕ → ℕ → Sched → Sched
  wake_sets s [] p sched = sched
  wake_sets s (x ∷ xs) p sched =
      wake_sets s xs p
        (if has_member (s.set x).members p then (wake_one sched (set_waiters x)).1 else sched)

  -- ipc_wake_port_sets_for_port.
  unfoldable pub wake_port_sets_for_port : Ipc h → ℕ → Ipc h
  wake_port_sets_for_port s p =
      if p == 0 then s else with_sched s (wake_sets s s.all_port_sets p s.sched)

  -- port_allocate after ipc_init; 0 is NULL.
  unfoldable pub port_allocate_ready : Ipc h → PortType → ℕ × Ipc h
  port_allocate_ready s type =
      let (p, heap) = h.kmalloc s.heap sizeof_port in
      let s1 = record s { heap = heap } in
      let port0 : Port = record {
        port_id = s1.next_port_id;
        type = type;
        send_right = true;
        receive_right = true;
        owner = s1.sched.current_task;
        owner_thread = s1.sched.current;
        ref_count = 1;
        queue = 0;
        active = (s1.port p).active;
      } in
      let s2 = record s1 {
        next_port_id = s1.next_port_id + 1;
        sched = init s1.sched (port_waiters p);
      } in
      let (q, s3) = queue_create s2 in
      let dead = write_port s3 p port0 in
      let live = write_port s3 p (record port0 { queue = q; active = true }) in
      if p == 0
      then (0, s1)
      else if ltb max_ports s.next_port_id
      then (0, record s1 { heap = h.kfree heap p })
      else if q == 0
      then (0, record dead { heap = h.kfree s3.heap p })
      else (
        p,
        record live {
          port_table =
              if is_index port0.port_id then put s.port_table port0.port_id p else s.port_table;
        },
      )

  -- ipc_init.
  unfoldable pub ipc_init : Ipc h → Ipc h
  ipc_init s =
      let s1 = record s {
        next_port_id = 1;
        next_set_id = 1;
        port_table = λ _. 0;
        ipc_initialized = true;
      } in
      let (p, s2) = port_allocate_ready s1 control in
      if s.ipc_initialized then s else record s2 { bootstrap_port = p }

  -- port_allocate.
  unfoldable pub port_allocate : Ipc h → PortType → ℕ × Ipc h
  port_allocate s type = port_allocate_ready (ipc_init s) type

  -- The last reference of port_deallocate: the port leaves the table, its waiters wake and its
  -- queue goes; waitq_wake_all has a round for each thread that waits and one more.
  unfoldable pub retire : Ipc h → ℕ → Ipc h
  retire s p =
      let v = s.port p in
      let s1 = record (write_port s p (record v { ref_count = 0; active = false })) {
        port_table =
            if is_index v.port_id && (s.port_table v.port_id == p)
            then put s.port_table v.port_id 0
            else s.port_table;
      } in
      let rounds = suc (length (s1.sched.waitq (port_waiters p)).threads) in
      let s2 = with_sched s1 (wake_all rounds s1.sched (port_waiters p)).1 in
      let s3 = queue_destroy s2 v.queue in
      let s4 = write_port s3 p (record (s3.port p) { queue = 0 }) in
      record s4 { heap = h.kfree s4.heap p }

  -- port_deallocate.
  unfoldable pub port_deallocate : Ipc h → ℕ → Ipc h
  port_deallocate s p =
      let v = s.port p in
      if (p == 0) || (v.ref_count == 0)
      then s
      else if v.ref_count == 1
      then retire s p
      else write_port s p (record v { ref_count = v.ref_count - 1 })

  -- port_insert_send_right and port_insert_receive_right; -1 is `generic`.
  unfoldable pub insert_send_right : Ipc h → ℕ → ℕ → Status × Ipc h
  insert_send_right s task p =
      let v = s.port p in
      if (task == 0) || (p == 0)
      then (generic, s)
      else (ok, write_port s p (record v { send_right = true; ref_count = add32 v.ref_count 1 }))

  unfoldable pub insert_receive_right : Ipc h → ℕ → ℕ → Status × Ipc h
  insert_receive_right s task p =
      let v = s.port p in
      let v' = record v { owner = task; receive_right = true; ref_count = add32 v.ref_count 1 } in
      if (task == 0) || (p == 0) then (generic, s) else (ok, write_port s p v')

-- ipc_message_free, with the heap.
unfoldable pub message_free : (h : Allocator) → h.State → Message → Message × h.State
message_free h heap m = (
  record m {
    data_addr = 0;
    bytes = if m.data_addr == 0 then m.bytes else [];
    msg_size = 0;
    port_count = 0;
  },
  if m.data_addr == 0 then heap else h.kfree heap m.data_addr,
)
