-- ===== src/Tests/Ipc.antt =====
-- The ports on concrete inputs.
use rodnix.Prelude.{
  ℕ, ◌+◌, ◌%◌, ◌^◌, ◌≡◌, refl, inl, true, ◌&&◌, Option, some, none, [], ◌∷◌, ◌==◌, if◌then◌else◌,
  Status, is_ok, ok, arith,
}
use rodnix.Tests.Sched.{sample}
use rodnix.Sched.Ready.{occurs}
use rodnix.Ipc.State.{Allocator, Message, normal, Port, Ipc}
use rodnix.Ipc.Queue.{copied, queue_push, push_copy, append_node, has_header, oversized}
use rodnix.Ipc.Port.{port_lookup, is_index, port_allocate, wake_port_sets_for_port}
use rodnix.Ipc.Send.{send, send_locked, bump, retain, after_push, ids_from, with_header}
use rodnix.Ipc.Receive.{receive}
use rodnix.Ipc.Refs.{attached}
use rodnix.Ipc.Pending.{pending}
use rodnix.Ipc.Delivery.{send-refs}
use rodnix.Ipc.Delivered.{send-receive}
use rodnix.Ipc.Set.{set_add}
use rodnix.Ipc.Members.{in_set, set_add-in_set}
use rodnix.Ipc.Exhausted.{allocate, deallocate, run, port_allocate-exhausted}

-- A heap that hands out the next address and takes nothing back.
abbrev bump_heap : Allocator
bump_heap = record {
  State = ℕ;
  kmalloc = λ n size. (n, n + size);
  kfree = λ n p. n;
  krealloc = λ n p size. (n, n + size);
}

-- Port 1 carries messages for any task; port 2 can be attached.
abbrev port_at : ℕ → Port
port_at p = record {
  port_id = if p == 0x100 then 1 else 2;
  type = normal;
  send_right = true;
  receive_right = true;
  owner = 0;
  owner_thread = 0;
  ref_count = 1;
  queue = if p == 0x100 then 0x180 else 0x280;
  active = true;
}

abbrev start : Ipc bump_heap
start = record {
  heap = 0x1000;
  sched = sample;
  port = port_at;
  queue = λ q. record { nodes = []; count = 0 };
  set = λ p. record { set_id = 1; owner = 0; ports = 0x900; members = 0x100 ∷ []; capacity = 4 };
  port_table = λ id. if id == 1 then 0x100 else if id == 2 then 0x200 else 0;
  all_port_sets = [];
  ipc_initialized = true;
  next_port_id = 1025;
  next_set_id = 2;
  bootstrap_port = 0x100;
}

-- Three of the four bytes, and port 2 twice.
abbrev greeting : Message
greeting = record {
  version = 0;
  size = 0;
  msg_id = 7;
  msg_size = 3;
  port_count = 2;
  ports = λ i. 2;
  data_addr = 0x800;
  bytes = 104 ∷ 101 ∷ 121 ∷ 33 ∷ [];
  reply_port = 0;
}

abbrev state_of : Option (Status × Ipc bump_heap) → Ipc bump_heap
state_of (some (rc, s)) = s
state_of none = start

send_twice :
    (state_of (send start 0x100 greeting)).port 0x200 ≡ record (port_at 0x200) { ref_count = 3 }
unfolding send send_locked bump retain port_lookup is_index ids_from queue_push push_copy
    append_node has_header oversized after_push wake_port_sets_for_port
send_twice = refl

send-refs_example :
    (rc : Status) × (s' : Ipc bump_heap) × (send start 0x100 greeting ≡ some (rc, s'))
    × ((s'.port 0x200).ref_count ≡ (
        if is_ok rc
        then (1 + attached (port_lookup start) (ids_from (λ _. 2) 0 2) 0x200) % 2 ^ 32
        else 1))
send-refs_example = send-refs start 0x100 greeting 0x200 (omega arith) (omega arith)

sent_ok : send start 0x100 greeting ≡ some (ok, state_of (send start 0x100 greeting))
unfolding send send_locked bump retain port_lookup is_index ids_from queue_push push_copy
    append_node has_header oversized after_push wake_port_sets_for_port
sent_ok = refl

send-receive_example :
    (addr : ℕ) × (s'' : Ipc bump_heap) × (receive
        (λ s. s)
        1
        (state_of (send start 0x100 greeting))
        0x100
        0
      ≡ some (some (copied (with_header greeting) addr), ok, s''))
    × (pending s'' 0x180 ≡ [])
unfolding send send_locked bump retain port_lookup is_index ids_from queue_push push_copy
    append_node has_header oversized after_push wake_port_sets_for_port pending
send-receive_example =
    send-receive (λ s. s) 0 start (state_of (send start 0x100 greeting)) 0x100 0 greeting refl
      sent_ok (record { port = omega arith; active = refl; queue = omega arith; owner = inl refl })

set_add-in_set_example :
    in_set (set_add start 0x300 0x200).1 0x300 0x200
    ≡ (if is_ok (set_add start 0x300 0x200).0 && true then 1 else in_set start 0x300 0x200)
set_add-in_set_example =
    set_add-in_set start 0x300 0x200 0x200 (omega arith) (omega arith)
      (unfold in_set occurs in omega arith)

port_allocate-exhausted_example :
    (port_allocate (run (deallocate 0x100 ∷ allocate normal ∷ []) start) normal).0 ≡ 0
port_allocate-exhausted_example =
    port_allocate-exhausted start (deallocate 0x100 ∷ allocate normal ∷ []) normal refl
      (omega arith)
