-- ===== src/Pmm/Listing.antt =====
-- kernel/arch/x86_64/pmm.c: the run of pages and the free lists in the loop of
-- pmm_rebuild_free_lists, and what each of its steps does to them.
use rodnix.Prelude.{
  ℕ, suc, ◌+◌, ◌≤◌, ◌<◌, ◌≡◌, sym, ap, ◌∙◌, true, false, ◌&&◌, ◌==◌, length, ltb, if◌then◌else◌,
  Bool-cases, inl, inr, arith, ==_refl,
}
use rodnix.Pmm.State.{Range, Pmm, zone_count, max_free_ranges}
use rodnix.Pmm.Ranges.{freelist_append}
use rodnix.Pmm.Bits.{end_run}
use rodnix.Pmm.Cover.{covers, covered, top, covered-freelist_append, freelist_append-exact}
use rodnix.Pmm.Solid.{is_solid, freelist_append-is_solid}
use rodnix.Pmm.Invariant.{usable, set_ranges-cases}

-- The loop before page i: the free lists and the run hold pages below i that are free and in the
-- zone, each at most once; all of them, as long as the list of the zone has room.
pub record Run (s0 : Pmm) (i z : ℕ) (run : Range) (s : Pmm) : Type 0 where
  pub rest : s ≡ record s0 { zone = s.zone }
  pub zone : z < zone_count
  pub end : run.start + run.count ≤ i
  pub listed :
      (k p : ℕ)
      → k < zone_count
      → covered (s.zone k).free_ranges p + (if z == k then covers run.start run.count p else 0)
        ≤ (if usable s0 k p && ltb p i then 1 else 0)
  pub complete :
      (k p : ℕ)
      → k < zone_count
      → length (s.zone k).free_ranges < max_free_ranges
      → (if usable s0 k p && ltb p i then 1 else 0)
        ≤ covered (s.zone k).free_ranges p + (if z == k then covers run.start run.count p else 0)
  pub solid : (k : ℕ) → k < zone_count → is_solid (s.zone k).free_ranges ≡ true
  pub below : (k : ℕ) → k < zone_count → top (s.zone k).free_ranges ≤ i

-- A page is usable in one zone at most.
usable_one : (s : Pmm) (z k i : ℕ) → usable s z i ≡ true → (z == k) ≡ false → usable s k i ≡ false
unfolding usable
usable_one s z k i u n = ground (arith, u, n)

-- A page that no zone can use asks for nothing.
unused_page :
    (s : Pmm) (k p i b c : ℕ)
    → usable s k i ≡ false
    → (if usable s k p && ltb p i then 1 else 0) ≤ b
    → b ≤ c
    → (if usable s k p && ltb p (suc i) then 1 else 0) ≤ c
unused_page s k p i b c u h l = elim (Bool-cases (p == i)) [
  | inr d ↦ ground (arith, d, h, l)
  | inl d ↦
      let same : i ≡ p = ground (arith, d) in
      let u' : usable s k p ≡ false = ap (usable s k) (sym same) ∙ u in rw u' (omega arith)
]

pub skipped :
    (s0 : Pmm) (i z : ℕ) (run : Range) (s : Pmm)
    → ((k : ℕ) → usable s0 k i ≡ false)
    → Run s0 i z run s
    → Run s0 (suc i) z run s
skipped s0 i z run s used r = record {
  complete = λ k p h room. unused_page s0 k p i _ _ (used k) (r.complete k p h room) (omega arith);
  rest = r.rest;
  zone = r.zone;
  end = omega (arith, r.end);
  listed = λ k p h. ground (arith, r.listed k p h);
  solid = r.solid;
  below = λ k h. omega (arith, r.below k h);
}

-- A run that has ended stands in the free list, or is lost.
pub ended :
    (s0 : Pmm) (i z : ℕ) (run : Range) (s : Pmm)
    → Run s0 i z run s
    → Run s0 i z (record run { count = 0 }) (end_run s z run)
unfolding end_run
ended s0 i z run s r =
    let old = (s.zone z).free_ranges in
    let new = freelist_append old run.start run.count in
    let c = λ (p : ℕ). covered-freelist_append old run.start run.count p in
    record {
      rest = ap (λ (x : Pmm). record x { zone = (end_run s z run).zone }) r.rest;
      zone = r.zone;
      end = omega (arith, r.end);
      listed = λ k p h.
          set_ranges-cases
            (λ j xs.
              covered xs p + (if z == j then covers run.start 0 p else 0)
              ≤ (if usable s0 j p && ltb p i then 1 else 0))
            s z new (unfold covers in ground (arith, c p, ==_refl z, r.listed z p r.zone)) k
            (λ n. ground (arith, n, r.listed k p h));
      complete = λ k p h.
          set_ranges-cases
            (λ j xs.
              length xs < max_free_ranges
              → (if usable s0 j p && ltb p i then 1 else 0)
                ≤ covered xs p + (if z == j then covers run.start 0 p else 0))
            s z new
            (λ room.
              let (exact, room') = freelist_append-exact old run.start run.count p room in
              unfold covers in ground (arith, exact, ==_refl z, r.complete z p r.zone room'))
            k (λ n room. ground (arith, n, r.complete k p h room));
      solid = λ k h.
          set_ranges-cases (λ j xs. is_solid xs ≡ true) s z new
            (freelist_append-is_solid old run.start run.count (r.solid z r.zone)) k
            (λ n. r.solid k h);
      below = λ k h.
          set_ranges-cases (λ j xs. top xs ≤ i) s z new
            (omega (arith, c 0, r.below z r.zone, r.end)) k (λ n. r.below k h);
    }

pub begun :
    (s0 : Pmm) (i z here : ℕ) (run : Range) (s : Pmm)
    → Run s0 i z run s
    → run.count ≡ 0
    → usable s0 here i ≡ true
    → here < zone_count
    → Run s0 (suc i) here (record { start = i; count = 1 }) s
begun s0 i z here run s r n u h = record {
  rest = r.rest;
  zone = h;
  end = omega arith;
  listed = λ k p h'. elim (Bool-cases (here == k)) [
    | inr c ↦ rw c (ground (arith, r.listed k p h'))
    | inl c ↦ elim (Bool-cases (p == i)) [
      | inr d ↦ unfold covers in ground (arith, c, d, r.listed k p h')
      | inl d ↦
          let same : here ≡ k = ground (arith, c) in
          let same' : i ≡ p = ground (arith, d) in
          let u' : usable s0 k p ≡ true =
            ap (λ j. usable s0 j p) (sym same) ∙ ap (usable s0 here) (sym same') ∙ u in
          rw (c, u') (unfold covers in ground (arith, d, r.listed k p h'))
    ]
  ];
  complete = λ k p h' room.
      let old : (if usable s0 k p && ltb p i then 1 else 0) ≤ covered (s.zone k).free_ranges p =
        unfold covers in ground (arith, n, r.complete k p h' room) in
      elim (Bool-cases (here == k)) [
        | inr c ↦ unused_page s0 k p i _ _ (usable_one s0 here k i u c) old (omega arith)
        | inl c ↦ unfold covers in ground (arith, c, old)
      ];
  solid = r.solid;
  below = λ k h. omega (arith, r.below k h);
}

pub longer :
    (s0 : Pmm) (i z : ℕ) (run : Range) (s : Pmm)
    → Run s0 i z run s
    → run.start + run.count ≡ i
    → usable s0 z i ≡ true
    → Run s0 (suc i) z (record run { count = run.count + 1 }) s
longer s0 i z run s r e u = record {
  rest = r.rest;
  zone = r.zone;
  end = omega (arith, e);
  listed = λ k p h'. elim (Bool-cases (z == k)) [
    | inr c ↦ rw c (ground (arith, c, r.listed k p h'))
    | inl c ↦ elim (Bool-cases (p == i)) [
      | inr d ↦ unfold covers in ground (arith, c, d, e, r.listed k p h')
      | inl d ↦
          let same : z ≡ k = ground (arith, c) in
          let same' : i ≡ p = ground (arith, d) in
          let u' : usable s0 k p ≡ true =
            ap (λ j. usable s0 j p) (sym same) ∙ ap (usable s0 z) (sym same') ∙ u in
          rw (c, u') (unfold covers in ground (arith, d, c, e, r.listed k p h'))
    ]
  ];
  complete = λ k p h' room. elim (Bool-cases (z == k)) [
    | inr c ↦
        unused_page s0 k p i _ _ (usable_one s0 z k i u c) (r.complete k p h' room)
          (ground (arith, c))
    | inl c ↦ unfold covers in ground (arith, c, e, r.complete k p h' room)
  ];
  solid = r.solid;
  below = λ k h. omega (arith, r.below k h);
}
