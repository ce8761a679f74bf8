-- ===== src/Ipc/Pending.antt =====
-- kernel/common/ipc.c: the message queues as queues of messages.
use rodnix.Prelude.{
  ℕ, ◌≡◌, refl, sym, ap, ◌∙◌, false, not, ◌&&◌, ◌||◌, some, List, [], ◌∷◌, ◌++◌, map, append-nil,
  ◌==◌, ltb, if◌then◌else◌, Status, is_ok, ok, invalid, nomem, Bool-cases, inl, inr, arith,
}
use rodnix.Ipc.State.{Allocator, Message, Node, Ipc, sizeof_node}
use rodnix.Ipc.Queue.{queue_push, push_copy, append_node, has_header, oversized, copied}

map-append :
    (xs : List Node) (n : Node) → map Node.msg (xs ++ n ∷ []) ≡ map Node.msg xs ++ n.msg ∷ []
map-append [] n = refl
map-append (x ∷ xs) n = ap (λ ys. x.msg ∷ ys) (map-append xs n)

module _ {h : Allocator} where
  -- The messages that wait in a queue, in the order in which they were sent.
  unfoldable pub pending : Ipc h → ℕ → List Message
  pending s q = map Node.msg (s.queue q).nodes

  -- What a push does: it touches no port, and where it succeeds it appends a copy.
  pub record Pushed (s : Ipc h) (q : ℕ) (m : Message) (rc : Status) (s' : Ipc h) : Type 0 where
    pub port : s'.port ≡ s.port
    pub table : s'.port_table ≡ s.port_table
    pub sched : s'.sched ≡ s.sched
    pub addr : ℕ
    pub pending :
        (k : ℕ)
        → pending s' k ≡ pending s k ++ (if is_ok rc && (q == k) then copied m addr ∷ [] else [])

  unpushed :
      (s : Ipc h) (q : ℕ) (m : Message) (rc : Status) (heap : h.State)
      → is_ok rc ≡ false
      → Pushed s q m rc (record s { heap = heap })
  unfolding pending
  unpushed s q m rc heap e = record {
    port = refl;
    table = refl;
    sched = refl;
    addr = 0;
    pending = λ k. rw e (sym (append-nil _));
  }

  appended :
      (s : Ipc h) (q : ℕ) (m : Message) (node addr : ℕ) (heap : h.State)
      → Pushed s q m ok
          (append_node (record s { heap = heap }) q (record { addr = node; msg = copied m addr }))
  unfolding append_node pending
  appended s q m node addr heap = record {
    port = refl;
    table = refl;
    sched = refl;
    addr = addr;
    pending = λ k. elim (Bool-cases (q == k)) [
      | inl b ↦ rw b (
          map-append (s.queue q).nodes _
          ∙ ap (λ j. pending s j ++ copied m addr ∷ []) (ground (arith, b)))
      | inr b ↦ rw b (sym (append-nil _))
    ];
  }

  push_copy-Pushed :
      (s : Ipc h) (q : ℕ) (m : Message) → Pushed s q m (push_copy s q m).0 (push_copy s q m).1
  unfolding push_copy
  push_copy-Pushed s q m =
      let a = (h.kmalloc s.heap sizeof_node) in
      let b = h.kmalloc a.1 m.msg_size in
      elim (Bool-cases (a.0 == 0)) [
        | inl x ↦ rw (x, push_copy) (unpushed s q m nomem a.1 refl)
        | inr x ↦ elim (Bool-cases (m.msg_size == 0)) [
          | inl y ↦ rw (x, y, push_copy) (appended s q m a.0 0 a.1)
          | inr y ↦ elim (Bool-cases (b.0 == 0)) [
            | inl z ↦ rw (x, y, z, push_copy) (unpushed s q m nomem (h.kfree b.1 a.0) refl)
            | inr z ↦ rw (x, y, z, push_copy) (appended s q m a.0 b.0 b.1)
          ]
        ]
      ]

  -- ipc_queue_push of a message that passes its BUG_ON.
  pub queue_push-Pushed :
      (s : Ipc h) (q : ℕ) (m : Message)
      → oversized m ≡ false
      → (rc : Status) × (s' : Ipc h) × (queue_push s q m ≡ some (rc, s')) × Pushed s q m rc s'
  unfolding queue_push
  queue_push-Pushed s q m e = elim (Bool-cases ((q == 0) || not (has_header m))) [
    | inl b ↦ (invalid, s, ground (arith, b), unpushed s q m invalid s.heap refl)
    | inr b ↦ elim (Bool-cases (ltb 0 m.msg_size && (m.data_addr == 0))) [
      | inl c ↦ (invalid, s, rw (b, c, e, queue_push) refl, unpushed s q m invalid s.heap refl)
      | inr c ↦ (
        (push_copy s q m).0,
        (push_copy s q m).1,
        rw (b, c, e, queue_push) refl,
        push_copy-Pushed s q m,
      )
    ]
  ]
