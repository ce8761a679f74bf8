-- ===== src/Ipc/Members.antt =====
-- kernel/common/ipc.c: port sets as sets of ports.
use rodnix.Prelude.{
  ℕ, ◌+◌, ◌≤◌, ◌≡◌, ◌≢◌, refl, true, false, ◌&&◌, List, [], ◌∷◌, ◌==◌, if◌then◌else◌, length, is_ok,
  Bool-cases, inl, inr, arith, ne→==_false,
}
use rodnix.Sched.Ready.{occurs, occurs-append}
use rodnix.Sched.Waiting.{occurs-unlink}
use rodnix.Ipc.State.{Allocator, Ipc}
use rodnix.Ipc.Port.{has_member}
use rodnix.Ipc.Set.{set_add, set_remove, grow_and_append, append_member}

-- The search finds what occurs.
found : (p : ℕ) (xs : List ℕ) → has_member xs p ≡ true → 1 ≤ occurs p xs
unfolding has_member occurs
found p [] e = ground (arith, e)
found p (x ∷ xs) e = elim (Bool-cases (x == p)) [
  | inl b ↦ ground (arith, b)
  | inr b ↦ ground (arith, b, e, found p xs)
]

not_found : (p : ℕ) (xs : List ℕ) → has_member xs p ≡ false → occurs p xs ≡ 0
unfolding has_member occurs
not_found p [] e = refl
not_found p (x ∷ xs) e = elim (Bool-cases (x == p)) [
  | inl b ↦ ground (arith, b, e)
  | inr b ↦ ground (arith, b, e, not_found p xs)
]

module _ {h : Allocator} where
  -- How often a port stands in a set.
  unfoldable pub in_set : Ipc h → ℕ → ℕ → ℕ
  in_set s set q = occurs q (s.set set).members

  append_member-in_set :
      (s : Ipc h) (set p q : ℕ)
      → in_set (append_member s set p) set q ≡ in_set s set q + (if p == q then 1 else 0)
  unfolding append_member in_set
  append_member-in_set s set p q =
      unfold occurs in ground (arith, occurs-append q (s.set set).members (p ∷ []))

  grow-in_set :
      (s : Ipc h) (set p q : ℕ)
      → in_set (grow_and_append s set p).1 set q
        ≡ in_set s set q + (if is_ok (grow_and_append s set p).0 && (p == q) then 1 else 0)
  unfolding grow_and_append in_set append_member
  grow-in_set s set p q =
      unfold occurs in ground (arith, occurs-append q (s.set set).members (p ∷ []))

  -- port_set_add of a port to a set in which no port stands twice, NULL neither: the port stands in
  -- the set once if the call returns RDNX_OK, and every other port, or every port if it does not,
  -- stands there as often as before.
  pub set_add-in_set :
      (s : Ipc h) (set p q : ℕ)
      → set ≢ 0
      → p ≢ 0
      → in_set s set q ≤ 1
      → in_set (set_add s set p).1 set q
        ≡ (if is_ok (set_add s set p).0 && (p == q) then 1 else in_set s set q)
  unfolding set_add
  set_add-in_set s set p q z y l =
      let v = s.set set in
      let zs = ne→==_false set 0 z in
      let ps = ne→==_false p 0 y in
      elim (Bool-cases (has_member v.members p)) [
        | inl b ↦ rw (zs, ps, b, set_add) (unfold in_set in ground (arith, l, found p v.members b))
        | inr b ↦
            let none_yet = not_found p v.members b in
            elim (Bool-cases (length v.members == v.capacity)) [
              | inl c ↦
                  rw (zs, ps, b, c, set_add)
                    (unfold in_set in ground (arith, none_yet, grow-in_set s set p q))
              | inr c ↦
                  rw (zs, ps, b, c, set_add)
                    (unfold in_set in ground (arith, none_yet, append_member-in_set s set p q))
            ]
      ]

  -- port_set_remove of a port, not NULL, from a set in which no port stands twice: the port is no
  -- longer in the set, every other port is as often as before, and the call returns RDNX_OK exactly
  -- if the port was in the set.
  pub set_remove-in_set :
      (s : Ipc h) (set p q : ℕ)
      → set ≢ 0
      → p ≢ 0
      → in_set s set p ≤ 1
      → (in_set (set_remove s set p).1 set q ≡ (if p == q then 0 else in_set s set q))
        × (is_ok (set_remove s set p).0 ≡ (in_set s set p == 1))
  unfolding set_remove
  set_remove-in_set s set p q z y l =
      let v = s.set set in
      let zs = ne→==_false set 0 z in
      let ps = ne→==_false p 0 y in
      elim (Bool-cases (has_member v.members p)) [
        | inl b ↦
            let k = found p v.members b in
            rw (zs, ps, b, set_remove)
              (unfold in_set in ground (arith, l, k, occurs-unlink p q v.members k))
        | inr b ↦
            rw (zs, ps, b, set_remove) (unfold in_set in ground (arith, not_found p v.members b))
      ]
