-- ===== src/Ipc/Delivery.antt =====
-- kernel/common/ipc.c: what ipc_send does to the queues and to the reference counts.
use rodnix.Prelude.{
  ℕ, ◌+◌, ◌%◌, ◌^◌, ◌<◌, ◌≡◌, ◌≢◌, refl, sym, ap, subst, ◌∙◌, false, not, ◌&&◌, ◌||◌, some, List,
  [], ◌∷◌, ◌++◌, append-nil, ◌==◌, ltb, if◌then◌else◌, take, take_all, Status, is_ok, invalid,
  notfound, denied, busy, Bool-cases, inl, inr, arith,
}
use rodnix.Ipc.State.{Allocator, Message, Ipc, max_ports_per_msg, msg_max_size}
use rodnix.Ipc.Queue.{oversized, copied}
use rodnix.Ipc.Port.{port_lookup, wake_port_sets_for_port}
use rodnix.Ipc.Send.{unretain, bump, rollback, after_push, send_locked, send, ids_from, with_header}
use rodnix.Ipc.Refs.{
  attached, refs, SameButRefs, bump-SameButRefs, bump-refs, bump-length, bump-rollback,
}
use rodnix.Ipc.Pending.{pending, Pushed, queue_push-Pushed}

module _ {h : Allocator} where
  -- What a reply of ipc_send means for the counts and the queues.
  pub record Sent (s : Ipc h) (p : ℕ) (m : Message) (rc : Status) (s' : Ipc h) : Type 0 where
    pub refs :
        (q : ℕ)
        → q ≢ 0
        → refs s q < 2 ^ 32
        → refs s' q ≡ (
            if is_ok rc
            then (refs s q + attached (port_lookup s) (ids_from m.ports 0 m.port_count) q) % 2 ^ 32
            else refs s q)
    pub queue : (k : ℕ) → (s'.port k).queue ≡ (s.port k).queue
    pub addr : ℕ
    pub pending :
        (k : ℕ)
        → pending s' k
          ≡ pending s k
            ++ (if is_ok rc && ((s.port p).queue == k)
                then copied (with_header m) addr ∷ []
                else [])

  -- A reply that changes nothing.
  refused : (s : Ipc h) (p : ℕ) (m : Message) (rc : Status) → is_ok rc ≡ false → Sent s p m rc s
  refused s p m rc e = record {
    refs = λ q z l. rw e refl;
    queue = λ k. refl;
    addr = 0;
    pending = λ k. rw e (sym (append-nil _));
  }

  rollback-queue : (ids : List ℕ) (s : Ipc h) → (rollback s ids).queue ≡ s.queue
  unfolding rollback unretain
  rollback-queue [] s = refl
  rollback-queue (id ∷ ids) s = rollback-queue ids _ ∙ ground arith

  rollback-port :
      (ids : List ℕ) (s : Ipc h) (k : ℕ) → ((rollback s ids).port k).queue ≡ (s.port k).queue
  unfolding rollback unretain
  rollback-port [] s k = refl
  rollback-port (id ∷ ids) s k = rollback-port ids _ k ∙ ground arith

  wake-ports :
      (s : Ipc h) (p : ℕ)
      → ((wake_port_sets_for_port s p).port ≡ s.port)
        × ((wake_port_sets_for_port s p).queue ≡ s.queue)
  unfolding wake_port_sets_for_port
  wake-ports s p = ground arith

  undone :
      (s s1 : Ipc h) (p : ℕ) (m : Message) (rc : Status) (ids : List ℕ)
      → is_ok rc ≡ false
      → s1.port_table ≡ s.port_table
      → ((k : ℕ) → (s1.port k).queue ≡ (s.port k).queue)
      → ((k : ℕ) → pending s1 k ≡ pending s k)
      → ((q : ℕ)
          → refs s q < 2 ^ 32
          → refs s1 q ≡ (refs s q + attached (port_lookup s) ids q) % 2 ^ 32)
      → Sent s p m rc (rollback s1 ids)
  unfolding pending
  undone s s1 p m rc ids e t u f g = record {
    refs = λ q z l. rw e (bump-rollback ids s s1 q z l t (g q l));
    queue = λ k. rollback-port ids s1 k ∙ u k;
    addr = 0;
    pending = λ k. rw (e, rollback-queue ids s1) (f k ∙ sym (append-nil _));
  }

  pub same_pending : (s s1 : Ipc h) → s1.queue ≡ s.queue → (k : ℕ) → pending s1 k ≡ pending s k
  unfolding pending
  same_pending s s1 e k = rw e refl

  -- The end of ipc_send, after a loop that counted every port and a push.
  after_push-Sent :
      (s s1 s2 : Ipc h) (p : ℕ) (m : Message) (rc : Status)
      → SameButRefs s s1
      → ((q : ℕ)
          → refs s q < 2 ^ 32
          → refs s1 q
            ≡ (refs s q + attached (port_lookup s) (ids_from m.ports 0 m.port_count) q) % 2 ^ 32)
      → Pushed s1 (s1.port p).queue (with_header m) rc s2
      → Sent s p m
          (after_push p rc s2 (ids_from m.ports 0 m.port_count)).0
          (after_push p rc s2 (ids_from m.ports 0 m.port_count)).1
  unfolding after_push
  after_push-Sent s s1 s2 p m rc f g w =
      let ids = ids_from m.ports 0 m.port_count in
      let same = same_pending s s1 f.queues in
      let counts = λ (q : ℕ). ap (λ z. (z q).ref_count) w.port in
      elim (Bool-cases (is_ok rc)) [
        | inl c ↦
            rw (c, after_push)
              (record {
                refs = λ q z l. ap (λ z. (z q).ref_count) (wake-ports _ p).0 ∙ counts q ∙ g q l;
                queue = λ k.
                    ap (λ z. (z k).queue) (wake-ports _ p).0
                    ∙ ap (λ z. (z k).queue) w.port
                    ∙ f.queue k;
                addr = w.addr;
                pending = λ k.
                    same_pending s2 _ (wake-ports _ p).1 k
                    ∙ w.pending k
                    ∙ rw (c, same k, f.queue p) refl;
              })
        | inr c ↦
            rw (c, after_push)
              (undone s s2 p m busy ids refl (w.table ∙ f.table)
                (λ k. ap (λ z. (z k).queue) w.port ∙ f.queue k)
                (λ k. w.pending k ∙ rw (c, same k) (append-nil _)) (λ q l. counts q ∙ g q l))
      ]

  send_locked-Sent :
      (s : Ipc h) (p : ℕ) (m : Message)
      → oversized m ≡ false
      → (rc : Status) × (s' : Ipc h) × (send_locked s p (with_header m) ≡ some (rc, s'))
        × Sent s p m rc s'
  unfolding send_locked oversized
  send_locked-Sent s p m e =
      let ids = ids_from m.ports 0 m.port_count in
      let b = bump s ids in
      let f = bump-SameButRefs ids s in
      let g = λ (q : ℕ) (l : refs s q < 2 ^ 32). bump-refs ids s q l in
      elim (Bool-cases b.0) [
        | inr w ↦ (
          invalid,
          rollback b.2 (take b.1 ids),
          rw (w, send_locked) refl,
          undone s b.2 p m invalid (take b.1 ids) refl f.table f.queue (same_pending s b.2 f.queues)
              g,
        )
        | inl w ↦
            let (rc, s2, eq, pushed) = queue_push-Pushed b.2 (b.2.port p).queue (with_header m) e in
            let all : take b.1 ids ≡ ids = take_all b.1 ids (omega (arith, bump-length ids s w)) in
            (
              (after_push p rc s2 ids).0,
              (after_push p rc s2 ids).1,
              rw (w, eq, send_locked) refl,
              after_push-Sent s b.2 s2 p m rc f
                  (λ q l.
                    subst (λ xs. refs b.2 q ≡ (refs s q + attached (port_lookup s) xs q) % 2 ^ 32)
                      all (g q l))
                  pushed,
            )
      ]

  pub send-Sent :
      (s : Ipc h) (p : ℕ) (m : Message)
      → (rc : Status) × (s' : Ipc h) × (send s p m ≡ some (rc, s')) × Sent s p m rc s'
  unfolding send
  send-Sent s p m =
      let v = s.port p in
      let big =
        ltb msg_max_size m.msg_size || ltb max_ports_per_msg m.port_count || (v.queue == 0) in
      elim (Bool-cases (p == 0)) [
        | inl a ↦ (invalid, s, rw (a, send) refl, refused s p m invalid refl)
        | inr a ↦ elim (Bool-cases (not v.active)) [
          | inl b ↦ (notfound, s, rw (a, b, send) refl, refused s p m notfound refl)
          | inr b ↦ elim (Bool-cases (not v.send_right)) [
            | inl c ↦ (denied, s, rw (a, b, c, send) refl, refused s p m denied refl)
            | inr c ↦ elim (Bool-cases big) [
              | inl d ↦ (invalid, s, rw (a, b, c, d, send) refl, refused s p m invalid refl)
              | inr d ↦
                  let (rc, s', e, w) =
                    send_locked-Sent s p m (unfold oversized in ground (arith, d)) in
                  (rc, s', rw (a, b, c, d, send) e, w)
            ]
          ]
        ]
      ]

  -- ipc_send, of any message to any port, never panics and returns a status. For a port whose
  -- reference count is below 2 ^ 32: if the status is RDNX_OK, the count has grown by the number
  -- of times the message carries the port's id, modulo 2 ^ 32; with any other status it is what it
  -- was before the call.
  pub send-refs :
      (s : Ipc h) (p : ℕ) (m : Message) (q : ℕ)
      → q ≢ 0
      → (s.port q).ref_count < 2 ^ 32
      → (rc : Status) × (s' : Ipc h) × (send s p m ≡ some (rc, s'))
        × ((s'.port q).ref_count ≡ (
            if is_ok rc
            then ((s.port q).ref_count
                + attached (port_lookup s) (ids_from m.ports 0 m.port_count) q)
              % 2 ^ 32
            else (s.port q).ref_count))
  send-refs s p m q z l = let (rc, s', e, w) = send-Sent s p m in (rc, s', e, w.refs q z l)

  -- ipc_send, of any message to any port, never panics and returns a status. If it is RDNX_OK, a
  -- copy of the message, with its header filled in and its data at a new address, stands last in
  -- the queue of the port, behind the messages that waited, and the other queues are as before;
  -- with any other status every queue is as before.
  pub send-pending :
      (s : Ipc h) (p : ℕ) (m : Message)
      → (rc : Status) × (s' : Ipc h) × (send s p m ≡ some (rc, s'))
        × (addr : ℕ) × ((k : ℕ)
            → pending s' k
              ≡ pending s k
                ++ (if is_ok rc && ((s.port p).queue == k)
                    then copied (with_header m) addr ∷ []
                    else []))
  send-pending s p m = let (rc, s', e, w) = send-Sent s p m in (rc, s', e, w.addr, w.pending)
