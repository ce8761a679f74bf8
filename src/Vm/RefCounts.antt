-- ===== src/Vm/RefCounts.antt =====
-- vm_page_ref.c: the table of nodes is a map from pages to counts.
use rodnix.Prelude.{
  ℕ, ◌+◌, ◌-◌, ◌^◌, ◌<◌, ◌≡◌, refl, Option, List, [], ◌∷◌, some, none, arith, ◌⊎◌, inl, inr,
  Bool-cases, Option-cases, ◌==◌, if◌then◌else◌, add32, ok,
}
use rodnix.Vm.Machine.{Machine}
use rodnix.Vm.PageRef.{
  PageRef, Refs, find, bump, drop_ref, missing, kept, freed, add_new, retain, release,
}

-- One node for each page, and no count of 0 or past 32 bits.
abbrev pub IsLive : List PageRef → Type 0
IsLive [] = Unit {0}
IsLive (n ∷ ns) = (0 < n.refs) × (n.refs < 2 ^ 32) × (find n.phys ns ≡ none) × IsLive ns

-- The count of a page, 0 if it has no node.
abbrev pub count_of : Option ℕ → ℕ
count_of none = 0
count_of (some c) = c

abbrev pub refs_of : List PageRef → ℕ → ℕ
refs_of ns p = count_of (find p ns)

find-bump :
    (q p : ℕ) (ns : List PageRef)
    → find p (bump q ns) ≡ (
        if q == p
        then (elim (find p ns) [ none ↦ none | some c ↦ some (add32 c 1) ])
        else find p ns)
unfolding find bump
find-bump q p [] = ground arith
find-bump q p (n ∷ ns) = ground (arith, find-bump q p ns)

bump-IsLive :
    (q : ℕ) (ns : List PageRef) → refs_of ns q + 1 < 2 ^ 32 → IsLive ns → IsLive (bump q ns)
unfolding find bump
bump-IsLive q [] h v = tt
bump-IsLive q (n ∷ ns) h v = ground (arith, find-bump q n.phys ns, bump-IsLive q ns)

-- The walk of vm_page_ref_release on a table with one node for each page.
find-drop_ref :
    (q p : ℕ) (ns : List PageRef)
    → IsLive ns
    → find p (drop_ref q ns).0 ≡ (
        if (q == p)
        then (if refs_of ns p - 1 == 0 then none else some (refs_of ns p - 1))
        else find p ns)
unfolding find drop_ref
find-drop_ref q p [] v = ground arith
find-drop_ref q p (n ∷ ns) v = ground (arith, find-drop_ref q p ns)

drop_ref-IsLive : (q : ℕ) (ns : List PageRef) → IsLive ns → IsLive (drop_ref q ns).0
unfolding find drop_ref
drop_ref-IsLive q [] v = tt
drop_ref-IsLive q (n ∷ ns) v = ground (arith, find-drop_ref q n.phys ns, drop_ref-IsLive q ns)

-- The walk frees exactly on the last reference.
drop_ref-freed :
    (q : ℕ) (ns : List PageRef)
    → IsLive ns
    → ((refs_of ns q ≡ 0) × ((drop_ref q ns).1 ≡ missing))
      ⊎ ((refs_of ns q ≡ 1) × ((node : ℕ) × ((drop_ref q ns).1 ≡ freed node)))
      ⊎ ((1 < refs_of ns q) × ((drop_ref q ns).1 ≡ kept))
unfolding find drop_ref
drop_ref-freed q [] v = inl (refl, refl)
drop_ref-freed q (n ∷ ns) v = elim (Bool-cases (n.phys == q)) [
  | inr b ↦ rw b (drop_ref-freed q ns (v.3))
  | inl b ↦ rw b (elim (Bool-cases (n.refs - 1 == 0)) [
    | inl z ↦ rw z (inr (inl (ground arith, (n.addr, refl))))
    | inr z ↦ rw z (inr (inr (ground arith, refl)))
  ])
]

module _ (m : Machine) (r : Refs m) (q : ℕ) (live : IsLive r.nodes) where
  -- A vm_page_ref_retain that replies RDNX_OK adds one to the count of the page, and to no other
  -- page's, and the table stays well formed. The count must fit in 32 bits.
  pub retain-counts :
      (p : ℕ)
      → refs_of r.nodes q + 1 < 2 ^ 32
      → (retain m r q).0 ≡ ok
      → IsLive (retain m r q).1.nodes
        × (refs_of (retain m r q).1.nodes p
            ≡ (if q == p then refs_of r.nodes p + 1 else refs_of r.nodes p))
  unfolding retain add_new
  retain-counts p fit h = elim (Option-cases (find q r.nodes)) [
    | inr (c, f) ↦
        let a = find-bump q p r.nodes in
        let b = bump-IsLive q r.nodes fit live in (ground (arith, f, b), ground (arith, f, a))
    | inl f ↦ (ground (arith, f), unfold find in ground (arith, f))
  ]

  -- A vm_page_ref_release that replies RDNX_OK takes one from the count of the page, and from no
  -- other page's. The page goes back to the allocator exactly when that was its last reference.
  pub release-counts :
      (p : ℕ)
      → (release m r q).0 ≡ ok
      → IsLive (release m r q).1.nodes
        × (0 < refs_of r.nodes q)
        × (refs_of (release m r q).1.nodes p
            ≡ (if q == p then refs_of r.nodes p - 1 else refs_of r.nodes p))
        × (((refs_of r.nodes q ≡ 1)
              × ((node : ℕ) × ((release m r q).1.hw ≡ m.kfree (m.free_page r.hw q) node)))
            ⊎ ((1 < refs_of r.nodes q) × ((release m r q).1.hw ≡ r.hw)))
  unfolding release
  release-counts p h = elim (drop_ref-freed q r.nodes live) [
    | inl (z, d) ↦ ground (arith, d)
    | inr (inl (z, (node, d))) ↦
        let a = find-drop_ref q p r.nodes live in
        let b = drop_ref-IsLive q r.nodes live in
        (
          ground (arith, d, b),
          omega arith,
          ground (arith, d, a),
          inl (z, (node, ground (arith, d))),
        )
    | inr (inr (z, d)) ↦
        let a = find-drop_ref q p r.nodes live in
        let b = drop_ref-IsLive q r.nodes live in
        (ground (arith, d, b), omega arith, ground (arith, d, a), inr (z, ground (arith, d)))
  ]
