-- ===== src/Ipc/Delivered.antt =====
-- kernel/common/ipc.c: what ipc_receive takes from a queue.
use rodnix.Prelude.{
  ℕ, suc, ◌≡◌, ◌≢◌, refl, sym, ap, subst, ◌∙◌, true, false, not, ◌&&◌, ◌⊎◌, some, List, [], ◌∷◌,
  map, ◌==◌, ok, inl, inr, arith, List-cases, ne→==_false, ==_refl,
}
use rodnix.Ipc.State.{Allocator, Message, Node, Ipc}
use rodnix.Ipc.Queue.{queue_pop, copied}
use rodnix.Ipc.Send.{send, with_header}
use rodnix.Ipc.Receive.{receive, receive_loop, get_deadline_ticks, lend, give_back, leave_waiters}
use rodnix.Ipc.Pending.{pending}
use rodnix.Ipc.Delivery.{send-Sent, same_pending, Sent}

some_eq {ℓ} : {A : Type ℓ} {a b : A} → some a ≡ some b → a ≡ b
some_eq e = cc

no_cons : {m : Message} {ms : List Message} → [] ≢ m ∷ ms
no_cons e = cc

uncons : (a b : Message) (xs ys : List Message) → a ∷ xs ≡ b ∷ ys → (a ≡ b) × (xs ≡ ys)
uncons a b xs ys e = (cc, cc)

module _ {h : Allocator} where
  -- Who may receive from a port: it is live, and the current task owns it or nobody does.
  pub record MayReceive (s : Ipc h) (p : ℕ) : Type 0 where
    pub port : p ≢ 0
    pub active : (s.port p).active ≡ true
    pub queue : (s.port p).queue ≢ 0
    pub owner : ((s.port p).owner ≡ 0) ⊎ (s.sched.current_task ≡ (s.port p).owner)

  pop-pending :
      (s : Ipc h) (q : ℕ) (m : Message) (rest : List Message)
      → q ≢ 0
      → pending s q ≡ m ∷ rest
      → (s' : Ipc h) × (queue_pop s q ≡ (some m, ok, s')) × (pending s' q ≡ rest)
  unfolding queue_pop pending
  pop-pending s q m rest z e = elim (List-cases (s.queue q).nodes) [
    | inl x ↦ absurd (no_cons (sym (ap (map Node.msg) x) ∙ e))
    | inr (nd, nds, x) ↦
        let k : nd.msg ∷ map Node.msg nds ≡ m ∷ rest = sym (ap (map Node.msg) x) ∙ e in
        (
          (queue_pop s q).2,
          rw (ne→==_false q 0 z, x, queue_pop)
              (rw (uncons nd.msg m (map Node.msg nds) rest k).0 refl),
          rw (ne→==_false q 0 z, x, queue_pop, ==_refl q)
              (uncons nd.msg m (map Node.msg nds) rest k).1,
        )
  ]

  lend-frame : (s : Ipc h) (p : ℕ) → ((lend s p).port ≡ s.port) × ((lend s p).queue ≡ s.queue)
  lend-frame s p = ground arith

  owns :
      (s : Ipc h) (p : ℕ)
      → ((s.port p).owner ≡ 0) ⊎ (s.sched.current_task ≡ (s.port p).owner)
      → (not ((s.port p).owner == 0) && not (s.sched.current_task == (s.port p).owner)) ≡ false
  owns s p o = ground (arith, o)

  loop-pending :
      (dispatch : Ipc h → Ipc h) (n : ℕ) (s s1 : Ipc h) (p receiver deadline : ℕ) (m : Message)
      → queue_pop s (s.port p).queue ≡ (some m, ok, s1)
      → (s' : Ipc h) × (receive_loop dispatch (suc n) s p receiver deadline ≡ some (some m, ok, s'))
        × (s'.queue ≡ s1.queue)
  unfolding receive_loop
  loop-pending dispatch n s s1 p receiver deadline m e =
      (give_back (leave_waiters s1 p receiver) p, rw (e, receive_loop) refl, ground arith)

  -- ipc_receive, from a port that is live, with a queue in which a message waits, and owned by the
  -- current task or by none: with a round or more it returns RDNX_OK with the message that was sent
  -- first, without a wait, and leaves the others in their order.
  pub receive-pending :
      (dispatch : Ipc h → Ipc h) (n : ℕ) (s : Ipc h) (p ms : ℕ) (m : Message) (rest : List Message)
      → MayReceive s p
      → pending s (s.port p).queue ≡ m ∷ rest
      → (s' : Ipc h) × (receive dispatch (suc n) s p ms ≡ some (some m, ok, s'))
        × (pending s' (s.port p).queue ≡ rest)
  unfolding receive pending
  receive-pending dispatch n s p ms m rest w e =
      let s1 = lend s p in
      let f = lend-frame s p in
      let (s2, a, b) =
        pop-pending s1 (s.port p).queue m rest w.queue
          (same_pending s s1 f.1 (s.port p).queue ∙ e) in
      let a' = subst (λ q. queue_pop s1 q ≡ (some m, ok, s2)) (ap (λ z. (z p).queue) (sym f.0)) a in
      let (s3, c, d) =
        loop-pending dispatch n s1 s2 p s.sched.current (get_deadline_ticks s1.sched ms) m a' in
      (
        s3,
        rw
            (
              ne→==_false p 0 w.port,
              w.active,
              owns s p w.owner,
              ne→==_false (s.port p).queue 0 w.queue,
              receive,
            )
            c,
        same_pending s2 s3 d (s.port p).queue ∙ b,
      )

  receive_last :
      (dispatch : Ipc h → Ipc h) (n : ℕ) (s s' : Ipc h) (p ms : ℕ) (m : Message)
      → pending s (s.port p).queue ≡ []
      → Sent s p m ok s'
      → MayReceive s' p
      → (addr : ℕ) × (s'' : Ipc h) × (receive dispatch (suc n) s' p ms
          ≡ some (some (copied (with_header m) addr), ok, s''))
        × (pending s'' (s.port p).queue ≡ [])
  receive_last dispatch n s s' p ms m e one w =
      let q = (s.port p).queue in
      let waiting : pending s' q ≡ copied (with_header m) one.addr ∷ [] =
        one.pending q ∙ rw (e, ==_refl q) refl in
      let (s3, c, d) =
        receive-pending dispatch n s' p ms (copied (with_header m) one.addr) [] w
          (rw (one.queue p) waiting) in
      (one.addr, s3, c, subst (λ k. pending s3 k ≡ []) (one.queue p) d)

  -- ipc_send that returns RDNX_OK, on a port in whose queue no message waits, followed by
  -- ipc_receive from the port by the task that may receive there: with a round or more, the
  -- receiver gets, without a wait, the message that was sent, the header filled in and the data
  -- copied, and no message is left.
  pub send-receive :
      (dispatch : Ipc h → Ipc h) (n : ℕ) (s s' : Ipc h) (p ms : ℕ) (m : Message)
      → pending s (s.port p).queue ≡ []
      → send s p m ≡ some (ok, s')
      → MayReceive s' p
      → (addr : ℕ) × (s'' : Ipc h) × (receive dispatch (suc n) s' p ms
          ≡ some (some (copied (with_header m) addr), ok, s''))
        × (pending s'' (s.port p).queue ≡ [])
  send-receive dispatch n s s' p ms m e t w =
      let (rc, s2, t', sent) = send-Sent s p m in
      receive_last dispatch n s s' p ms m e
        (subst (λ r. Sent s p m r.0 r.1) (some_eq (sym t' ∙ t)) sent) w
