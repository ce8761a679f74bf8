-- ===== src/Ipc/Exhausted.antt =====
-- kernel/common/ipc.c: the supply of port ids.
use rodnix.Prelude.{
  ℕ, ◌<◌, ◌≡◌, refl, true, List, [], ◌∷◌, ◌==◌, Bool-cases, inl, inr, arith, lt→ltb,
}
use rodnix.Ipc.State.{Allocator, PortType, Ipc, max_ports, sizeof_port}
use rodnix.Ipc.Queue.{queue_destroy}
use rodnix.Ipc.Port.{port_allocate, port_allocate_ready, port_deallocate, retire, ipc_init}

-- A call of port_allocate or port_deallocate.
pub data PortCall : Type 0 where
  allocate : PortType → PortCall
  deallocate : ℕ → PortCall

module _ {h : Allocator} where
  -- A sequence of such calls.
  unfoldable pub run : List PortCall → Ipc h → Ipc h
  run [] s = s
  run (allocate type ∷ calls) s = run calls (port_allocate s type).1
  run (deallocate p ∷ calls) s = run calls (port_deallocate s p)

  -- All ids have been given out.
  pub record IsExhausted (s : Ipc h) : Type 0 where
    pub initialized : s.ipc_initialized ≡ true
    pub next : max_ports < s.next_port_id

  ready-none :
      (s : Ipc h) (type : PortType)
      → IsExhausted s
      → ((port_allocate_ready s type).0 ≡ 0) × IsExhausted (port_allocate_ready s type).1
  unfolding port_allocate_ready
  ready-none s type w =
      let full = lt→ltb max_ports s.next_port_id w.next in
      elim (Bool-cases ((h.kmalloc s.heap sizeof_port).0 == 0)) [
        | inl b ↦
            rw (b, port_allocate_ready)
              (refl, record { initialized = w.initialized; next = w.next })
        | inr b ↦
            rw (b, full, port_allocate_ready)
              (refl, record { initialized = w.initialized; next = w.next })
      ]

  init_again : (s : Ipc h) → s.ipc_initialized ≡ true → ipc_init s ≡ s
  unfolding ipc_init
  init_again s e = rw (e, ipc_init) refl

  allocate-none :
      (s : Ipc h) (type : PortType)
      → IsExhausted s
      → ((port_allocate s type).0 ≡ 0) × IsExhausted (port_allocate s type).1
  unfolding port_allocate
  allocate-none s type w = rw (init_again s w.initialized, port_allocate) (ready-none s type w)

  deallocate-none : (s : Ipc h) (p : ℕ) → IsExhausted s → IsExhausted (port_deallocate s p)
  unfolding port_deallocate retire queue_destroy
  deallocate-none s p w = record {
    initialized = ground (arith, w.initialized);
    next = ground (arith, w.next);
  }

  run-none : (calls : List PortCall) (s : Ipc h) → IsExhausted s → IsExhausted (run calls s)
  unfolding run
  run-none [] s w = w
  run-none (allocate type ∷ calls) s w = run-none calls _ (allocate-none s type w).1
  run-none (deallocate p ∷ calls) s w = run-none calls _ (deallocate-none s p w)

  -- port_allocate after ipc_init and once the ids up to IPC_MAX_PORTS have been given out: it
  -- returns NULL, whatever calls of port_allocate and port_deallocate come before it, even if they
  -- have released every port.
  pub port_allocate-exhausted :
      (s : Ipc h) (calls : List PortCall) (type : PortType)
      → s.ipc_initialized ≡ true
      → max_ports < s.next_port_id
      → (port_allocate (run calls s) type).0 ≡ 0
  port_allocate-exhausted s calls type e l =
      (allocate-none _ type (run-none calls s (record { initialized = e; next = l }))).0
