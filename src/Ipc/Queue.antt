-- ===== src/Ipc/Queue.antt =====
-- kernel/common/ipc.c: the message queues.
use rodnix.Prelude.{
  ℕ, ◌-◌, Bool, not, ◌&&◌, ◌||◌, Option, some, none, List, [], ◌∷◌, ◌++◌, ◌==◌, ltb, if◌then◌else◌,
  take, add32, Status, ok, invalid, nomem, notfound,
}
use rodnix.Ipc.State.{
  Allocator, Message, Node, Queue, Ipc, write_queue, sizeof_message, sizeof_node, sizeof_queue,
  msg_max_size, max_ports_per_msg,
}

-- The message that ipc_queue_push stores, its data copied to the given address.
unfoldable pub copied : Message → ℕ → Message
copied m addr = record m {
  ports = λ i. if ltb i m.port_count then m.ports i else 0;
  data_addr = addr;
  bytes = take m.msg_size m.bytes;
}

-- The header check of ipc_queue_push.
unfoldable pub has_header : Message → Bool
has_header m = (m.version == 1) && not (ltb m.size sizeof_message)

-- What the two BUG_ON of ipc_queue_push test.
unfoldable pub oversized : Message → Bool
oversized m = ltb msg_max_size m.msg_size || ltb max_ports_per_msg m.port_count

-- The empty queue.
abbrev no_nodes : Queue
no_nodes = record { nodes = []; count = 0 }

-- The loop of ipc_queue_destroy.
unfoldable pub free_nodes : (h : Allocator) → h.State → List Node → h.State
free_nodes h heap [] = heap
free_nodes h heap (n ∷ ns) =
    let heap' = if n.msg.data_addr == 0 then heap else h.kfree heap n.msg.data_addr in
    free_nodes h (h.kfree heap' n.addr) ns

module _ {h : Allocator} where
  -- ipc_queue_create; 0 is NULL.
  unfoldable pub queue_create : Ipc h → ℕ × Ipc h
  queue_create s =
      let (q, heap) = h.kmalloc s.heap sizeof_queue in
      let s1 = record s { heap = heap } in
      if q == 0 then (0, s1) else (q, write_queue s1 q no_nodes)

  -- ipc_queue_destroy.
  unfoldable pub queue_destroy : Ipc h → ℕ → Ipc h
  queue_destroy s q =
      let s1 = record s { heap = h.kfree (free_nodes h s.heap (s.queue q).nodes) q } in
      if q == 0 then s else write_queue s1 q no_nodes

  -- The link of a node at the tail.
  unfoldable pub append_node : Ipc h → ℕ → Node → Ipc h
  append_node s q n =
      let v = s.queue q in
      write_queue s q (record { nodes = v.nodes ++ n ∷ []; count = add32 v.count 1 })

  -- ipc_queue_push from its first kmalloc on.
  unfoldable pub push_copy : Ipc h → ℕ → Message → Status × Ipc h
  push_copy s q m =
      let (node, heap1) = h.kmalloc s.heap sizeof_node in
      let s1 = record s { heap = heap1 } in
      let (bytes, heap2) = h.kmalloc heap1 m.msg_size in
      let s2 = record s { heap = heap2 } in
      if node == 0
      then (nomem, s1)
      else if m.msg_size == 0
      then (ok, append_node s1 q (record { addr = node; msg = copied m 0 }))
      else if bytes == 0
      then (nomem, record s { heap = h.kfree heap2 node })
      else (ok, append_node s2 q (record { addr = node; msg = copied m bytes }))

  -- ipc_queue_push; none is the panic of its BUG_ON.
  unfoldable pub queue_push : Ipc h → ℕ → Message → Option (Status × Ipc h)
  queue_push s q m =
      if (q == 0) || not (has_header m)
      then some (invalid, s)
      else if oversized m
      then none
      else if ltb 0 m.msg_size && (m.data_addr == 0)
      then some (invalid, s)
      else some (push_copy s q m)

  -- ipc_queue_pop; the message is none unless the reply is RDNX_OK.
  unfoldable pub queue_pop : Ipc h → ℕ → Option Message × Status × Ipc h
  queue_pop s q =
      let v = s.queue q in
      if q == 0 then (none, invalid, s) else elim v.nodes [
        | [] ↦ (none, notfound, s)
        | n ∷ ns ↦ (
          some n.msg,
          ok,
          record (write_queue s q (record { nodes = ns; count = v.count - 1 })) {
            heap = h.kfree s.heap n.addr;
          },
        )
      ]
