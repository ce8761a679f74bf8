-- ===== src/Ipc/Refs.antt =====
-- kernel/common/ipc.c: what ipc_send does to the reference counts of the ports it carries.
use rodnix.Prelude.{
  ℕ, ◌+◌, ◌%◌, ◌^◌, ◌<◌, ◌≡◌, ◌≢◌, refl, ap, ◌∙◌, true, not, ◌||◌, List, [], ◌∷◌, ◌==◌,
  if◌then◌else◌, length, take, Bool-cases, inl, inr, arith,
}
use rodnix.Ipc.State.{Allocator, Ipc}
use rodnix.Ipc.Port.{is_index, port_lookup}
use rodnix.Ipc.Send.{retain, unretain, bump, rollback}

-- How many of the ids a table sends to a port.
unfoldable pub attached : (ℕ → ℕ) → List ℕ → ℕ → ℕ
attached lookup [] p = 0
attached lookup (id ∷ ids) p = (if lookup id == p then 1 else 0) + attached lookup ids p

module _ {h : Allocator} where
  abbrev pub refs : Ipc h → ℕ → ℕ
  refs s p = (s.port p).ref_count

  retain-refs :
      (s : Ipc h) (q p : ℕ)
      → refs s p < 2 ^ 32
      → refs (retain s q) p ≡ (refs s p + (if q == p then 1 else 0)) % 2 ^ 32
  unfolding retain
  retain-refs s q p l = ground (arith, l)

  unretain-refs :
      (s : Ipc h) (q p : ℕ)
      → p ≢ 0
      → refs s p < 2 ^ 32
      → (refs s p ≡ (refs (unretain s q) p + (if q == p then 1 else 0)) % 2 ^ 32)
        × (refs (unretain s q) p < 2 ^ 32)
  unfolding unretain
  unretain-refs s q p z l = ground (arith, l, z)

  retain-table : (s : Ipc h) (q : ℕ) → port_lookup (retain s q) ≡ port_lookup s
  unfolding port_lookup retain
  retain-table s q = refl

  unretain-table : (s : Ipc h) (q : ℕ) → port_lookup (unretain s q) ≡ port_lookup s
  unfolding port_lookup unretain
  unretain-table s q = elim (Bool-cases (q == 0)) [
    | inl b ↦ rw (b, unretain) refl
    | inr b ↦ rw (b, unretain) refl
  ]

  -- The ports that the loop has counted have as many references more.
  pub bump-refs :
      (ids : List ℕ) (s : Ipc h) (p : ℕ)
      → refs s p < 2 ^ 32
      → refs (bump s ids).2 p
        ≡ (refs s p + attached (port_lookup s) (take (bump s ids).1 ids) p) % 2 ^ 32
  unfolding bump attached
  bump-refs [] s p l = omega (arith, l)
  bump-refs (id ∷ ids) s p l =
      let q = port_lookup s id in
      let r = retain-refs s q p l in
      let next = bump-refs ids (retain s q) p (omega (arith, r)) in
      elim (Bool-cases ((q == 0) || not (s.port q).active)) [
        | inl b ↦ rw (b, bump) (omega (arith, l))
        | inr b ↦
            rw (b, bump)
              (omega (
                arith,
                r,
                next,
                ap (λ f. attached f (take (bump (retain s q) ids).1 ids) p) (retain-table s q),
              ))
      ]

  rollback-refs :
      (ids : List ℕ) (s : Ipc h) (p : ℕ)
      → p ≢ 0
      → refs s p < 2 ^ 32
      → (refs s p ≡ (refs (rollback s ids) p + attached (port_lookup s) ids p) % 2 ^ 32)
        × (refs (rollback s ids) p < 2 ^ 32)
  unfolding rollback attached
  rollback-refs [] s p z l = (omega (arith, l), l)
  rollback-refs (id ∷ ids) s p z l =
      let q = port_lookup s id in
      let (a, b) = unretain-refs s q p z l in
      let (c, d) = rollback-refs ids (unretain s q) p z b in
      (omega (arith, a, c, ap (λ f. attached f ids p) (unretain-table s q)), d)

  -- What the loop leaves as it was: the table, the queues and, of each port, all that is read.
  pub record SameButRefs (s s' : Ipc h) : Type 0 where
    pub table : s'.port_table ≡ s.port_table
    pub queues : s'.queue ≡ s.queue
    pub queue : (p : ℕ) → (s'.port p).queue ≡ (s.port p).queue
    pub active : (p : ℕ) → (s'.port p).active ≡ (s.port p).active
    pub owner : (p : ℕ) → (s'.port p).owner ≡ (s.port p).owner

  same_refl : (s : Ipc h) → SameButRefs s s
  same_refl s = record {
    table = refl;
    queues = refl;
    queue = λ p. refl;
    active = λ p. refl;
    owner = λ p. refl;
  }

  pub bump-SameButRefs : (ids : List ℕ) (s : Ipc h) → SameButRefs s (bump s ids).2
  unfolding bump retain
  bump-SameButRefs [] s = same_refl s
  bump-SameButRefs (id ∷ ids) s =
      let q = port_lookup s id in
      let next = bump-SameButRefs ids (retain s q) in
      elim (Bool-cases ((q == 0) || not (s.port q).active)) [
        | inl b ↦ rw (b, bump) (same_refl s)
        | inr b ↦
            rw (b, bump)
              (record {
                table = next.table;
                queues = next.queues;
                queue = λ p. next.queue p ∙ ground arith;
                active = λ p. next.active p ∙ ground arith;
                owner = λ p. next.owner p ∙ ground arith;
              })
      ]

  -- A loop that reached its end has counted every port.
  pub bump-length : (ids : List ℕ) (s : Ipc h) → (bump s ids).0 ≡ true → (bump s ids).1 ≡ length ids
  unfolding bump
  bump-length [] s e = refl
  bump-length (id ∷ ids) s e =
      let q = port_lookup s id in
      let next = bump-length ids (retain s q) in
      elim (Bool-cases ((q == 0) || not (s.port q).active)) [
        | inl b ↦ ground (arith, b, e)
        | inr b ↦ ground (arith, b, e, next)
      ]

  -- The counts after the loop and its rollback.
  pub bump-rollback :
      (ids : List ℕ) (s s1 : Ipc h) (p : ℕ)
      → p ≢ 0
      → refs s p < 2 ^ 32
      → s1.port_table ≡ s.port_table
      → refs s1 p ≡ (refs s p + attached (port_lookup s) ids p) % 2 ^ 32
      → refs (rollback s1 ids) p ≡ refs s p
  unfolding port_lookup
  bump-rollback ids s s1 p z l t e =
      let (a, b) = rollback-refs ids s1 p z (omega (arith, e)) in
      let k = ap (λ f. attached (λ id. if is_index id then f id else 0) ids p) t in
      omega (arith, a, b, e, k, l)
