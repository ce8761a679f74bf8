-- ===== src/Ipc/State.antt =====
-- The messages, queues, ports and port sets of kernel/common/ipc.h and ipc.c. Each is named by its
-- address, 0 for NULL; a message queue is the list of its nodes, head first.
use rodnix.Prelude.{ℕ, ◌+◌, Bool, List, ◌-◌, ◌%◌, ◌^◌}
use rodnix.Sched.State.{Sched, put}

-- What ipc.c calls of kernel/common/heap.c.
pub record Allocator : Type 1 where
  pub State : Type 0
  pub kmalloc : State → ℕ → ℕ × State
  pub kfree : State → ℕ → State
  pub krealloc : State → ℕ → ℕ → ℕ × State

-- `ipc_message_t`, its header as `version` and `size`; `bytes` is the memory at `data`, whose address is `data_addr`.
pub record Message : Type 0 where
  pub version : ℕ
  pub size : ℕ
  pub msg_id : ℕ
  pub msg_size : ℕ
  pub port_count : ℕ
  pub ports : ℕ → ℕ
  pub data_addr : ℕ
  pub bytes : List ℕ
  pub reply_port : ℕ

-- `ipc_msg_node_t`, without the link.
pub record Node : Type 0 where
  pub addr : ℕ
  pub msg : Message

-- `ipc_queue_t`.
pub record Queue : Type 0 where
  pub nodes : List Node
  pub count : ℕ

-- `port_type_t`.
pub data PortType : Type 0 where
  normal notification control : PortType

-- `port_t`; the rights are the bits PORT_RIGHT_SEND and PORT_RIGHT_RECEIVE, all that ipc.c sets.
pub record Port : Type 0 where
  pub port_id : ℕ
  pub type : PortType
  pub send_right : Bool
  pub receive_right : Bool
  pub owner : ℕ
  pub owner_thread : ℕ
  pub ref_count : ℕ
  pub queue : ℕ
  pub active : Bool

-- `port_set_t`; `members` is the array at `ports`, up to `port_count`.
pub record PortSet : Type 0 where
  pub set_id : ℕ
  pub owner : ℕ
  pub ports : ℕ
  pub members : List ℕ
  pub capacity : ℕ

-- The globals of ipc.c, the memory that its pointers lead to, and the scheduler. `port_table` is
-- read at an id, and `all_port_sets` is the list from all_port_sets_head.
pub record Ipc (h : Allocator) : Type 0 where
  pub heap : h.State
  pub sched : Sched
  pub port : ℕ → Port
  pub queue : ℕ → Queue
  pub set : ℕ → PortSet
  pub port_table : ℕ → ℕ
  pub all_port_sets : List ℕ
  pub ipc_initialized : Bool
  pub next_port_id : ℕ
  pub next_set_id : ℕ
  pub bootstrap_port : ℕ

-- IPC_MAX_PORTS, IPC_MSG_MAX_SIZE and IPC_MAX_PORTS_PER_MSG.
abbrev pub max_ports : ℕ
max_ports = 1024

abbrev pub msg_max_size : ℕ
msg_max_size = 4096

abbrev pub max_ports_per_msg : ℕ
max_ports_per_msg = 8

-- sizeof of ipc_message_t, ipc_msg_node_t, ipc_queue_t, port_t and port_set_t.
abbrev pub sizeof_message : ℕ
sizeof_message = 104

abbrev pub sizeof_node : ℕ
sizeof_node = 112

abbrev pub sizeof_queue : ℕ
sizeof_queue = 24

abbrev pub sizeof_port : ℕ
sizeof_port = 96

abbrev pub sizeof_set : ℕ
sizeof_set = 72

-- &port->waiters and &set->waiters.
abbrev pub port_waiters : ℕ → ℕ
port_waiters p = p + 40

abbrev pub set_waiters : ℕ → ℕ
set_waiters p = p + 32

-- uint32_t a - 1.
abbrev pub pred32 : ℕ → ℕ
pred32 a = (a + 2 ^ 32 - 1) % 2 ^ 32

module _ {h : Allocator} where
  abbrev pub write_port : Ipc h → ℕ → Port → Ipc h
  write_port s p v = record s { port = put s.port p v }

  abbrev pub write_queue : Ipc h → ℕ → Queue → Ipc h
  write_queue s q v = record s { queue = put s.queue q v }

  abbrev pub write_set : Ipc h → ℕ → PortSet → Ipc h
  write_set s p v = record s { set = put s.set p v }

  abbrev pub with_sched : Ipc h → Sched → Ipc h
  with_sched s v = record s { sched = v }
