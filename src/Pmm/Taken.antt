-- ===== src/Pmm/Taken.antt =====
-- kernel/arch/x86_64/pmm.c: the allocation of a page.
use rodnix.Prelude.{
  ℕ, ◌+◌, ◌<◌, ◌≡◌, refl, ap, ◌∙◌, ◌⊎◌, true, false, ◌&&◌, ◌||◌, ◌==◌, ltb, leb, if◌then◌else◌,
  Bool-cases, inl, inr, arith,
}
use rodnix.Pmm.State.{Pmm, zone_count, page_size}
use rodnix.Pmm.Bits.{bitmap_test, bitmap_set, has_bit, index_to_page, zero_page}
use rodnix.Pmm.Alloc.{take_page, alloc_page_in_zone}
use rodnix.Pmm.Cover.{covers, covered}
use rodnix.Pmm.Invariant.{usable, IsPmm, Picked, pick_page-cases}

-- What the bookkeeping of an allocation does.
pub record Took (s : Pmm) (i : ℕ) (s' : Pmm) : Type 0 where
  pub bits : (p : ℕ) → bitmap_test s' p ≡ (if i == p then true else bitmap_test s p)
  pub lists : (k : ℕ) → (s'.zone k).free_ranges ≡ (s.zone k).free_ranges
  pub start : s'.memory_start ≡ s.memory_start
  pub total : s'.total_pages ≡ s.total_pages
  pub stop : s'.memory_end ≡ s.memory_end
  pub room : s'.bitmap_size ≡ s.bitmap_size
  pub memory :
      (a : ℕ)
      → s'.memory a ≡ (
          if leb (index_to_page s i) a && ltb a (index_to_page s i + page_size)
          then 0
          else s.memory a)

take_page-Took : (s : Pmm) (z i : ℕ) → bitmap_test s i ≡ false → Took s i (take_page s z i)
unfolding take_page zero_page bitmap_set bitmap_test has_bit
take_page-Took s z i e = record {
  bits = λ p. ground (arith, e);
  lists = λ k. ground arith;
  start = ground arith;
  total = ground arith;
  stop = ground arith;
  room = ground arith;
  memory = λ a. ground (arith, e);
}

-- What only another free list distinguishes has the same bits.
pub same_bits :
    (s s1 : Pmm) (p : ℕ)
    → s1 ≡ record s { zone = s1.zone }
    → (bitmap_test s1 p ≡ bitmap_test s p) × (index_to_page s1 p ≡ index_to_page s p)
unfolding bitmap_test has_bit index_to_page
same_bits s s1 p e = (ap (λ t. bitmap_test t p) e, ap (λ t. index_to_page t p) e)

-- A page that is free and in a zone is in no other one.
pub one_zone : (s : Pmm) (z k i : ℕ) → usable s z i ≡ true → (k == z) ≡ false → usable s k i ≡ false
unfolding usable
one_zone s z k i u n = ground (arith, u, n)

usable-Took :
    (s s1 s' : Pmm) (i k p : ℕ)
    → s1 ≡ record s { zone = s1.zone }
    → Took s1 i s'
    → usable s' k p ≡ (if i == p then false else usable s k p)
unfolding usable index_to_page
usable-Took s s1 s' i k p e t =
    let b = t.bits p ∙ ap (λ x. if i == p then true else x) (same_bits s s1 p e).0 in
    let g = t.start ∙ ap (λ x. x.memory_start) e in rw (b, g) (ground arith)

-- The page that was picked is in no free list.
gone :
    (s s1 : Pmm) (z i k : ℕ)
    → Picked s z i s1
    → k < zone_count
    → covered (s1.zone k).free_ranges i ≡ 0
unfolding covers
gone s s1 z i k p h = elim (Bool-cases (k == z)) [
  | inl d ↦ ground (arith, d, p.listed k i h)
  | inr d ↦ ground (arith, d, one_zone s z k i p.free d, p.listed k i h)
]

taken-IsPmm : (s s1 s' : Pmm) (z i : ℕ) → IsPmm s → Picked s z i s1 → Took s1 i s' → IsPmm s'
taken-IsPmm s s1 s' z i w p t = record {
  listed = λ k q h.
      rw (t.lists k, usable-Took s s1 s' i k q p.rest t)
        (elim (Bool-cases (i == q)) [
          | inl c ↦
              let same : i ≡ q = ground (arith, c) in
              rw c (omega (arith, ap (covered (s1.zone k).free_ranges) same, gone s s1 z i k p h))
          | inr c ↦ rw c (omega (arith, p.listed k q h))
        ]);
  solid = λ k h. rw (t.lists k) (p.solid k h);
  below = λ k h. rw (t.lists k, t.total, ap Pmm.total_pages p.rest) (p.below k h);
  small = rw (t.total, ap Pmm.total_pages p.rest) w.small;
}

-- What pmm_alloc_page_in_zone does, by the page that it picks.
pub alloc_page_in_zone-Took :
    (s : Pmm) (z : ℕ)
    → IsPmm s
    → z < zone_count
    → ((alloc_page_in_zone s z ≡ (0, s))
        × ((s.free_pages ≡ 0) ⊎ ((p : ℕ) → p < s.total_pages → usable s z p ≡ false)))
      ⊎ ((i : ℕ) × (s1 : Pmm) × (s' : Pmm) × (alloc_page_in_zone s z ≡ (index_to_page s i, s'))
          × Picked s z i s1
          × Took s1 i s'
          × IsPmm s')
unfolding alloc_page_in_zone
alloc_page_in_zone-Took s z w l = elim (Bool-cases ((s.free_pages == 0) || leb zone_count z)) [
  | inl b ↦ inl (rw (b, alloc_page_in_zone) refl, inl (ground (arith, b, l)))
  | inr b ↦ elim (pick_page-cases s z w l) [
    | inl (e, n) ↦ inl (rw (b, ap (λ t. t.0) e, ap (λ t. t.1) e, alloc_page_in_zone) refl, inr n)
    | inr (i, s1, e, p) ↦
        let (same, at) = same_bits s s1 i p.rest in
        let t = take_page-Took s1 z i (unfold usable in ground (arith, same, p.free)) in
        inr (
          i,
          s1,
          take_page s1 z i,
          rw (b, ap (λ t. t.0) e, ap (λ t. t.1) e, at, alloc_page_in_zone) refl,
          p,
          t,
          taken-IsPmm s s1 (take_page s1 z i) z i w p t,
        )
  ]
]

-- pmm_alloc_page_in_zone, in PMM_ZONE_LOW, PMM_ZONE_NORMAL or PMM_ZONE_MMIO, where the bitmap and
-- the free lists agree: either no page is counted as free or none in the zone is free, and the call
-- returns 0 and changes nothing; or it returns the address of a page that was free and in the zone,
-- which is now used and reads as zeros. Every other page is as free or used as before, no other
-- memory changes, and the bitmap and the free lists agree again.
pub alloc_page_in_zone-takes :
    (s : Pmm) (z : ℕ)
    → IsPmm s
    → z < zone_count
    → ((alloc_page_in_zone s z ≡ (0, s))
        × ((s.free_pages ≡ 0) ⊎ ((p : ℕ) → p < s.total_pages → usable s z p ≡ false)))
      ⊎ ((i : ℕ) × (s' : Pmm) × (alloc_page_in_zone s z ≡ (index_to_page s i, s'))
          × (usable s z i ≡ true)
          × (i < s.total_pages)
          × ((p : ℕ) → bitmap_test s' p ≡ (if i == p then true else bitmap_test s p))
          × ((a : ℕ)
              → s'.memory a ≡ (
                  if leb (index_to_page s i) a && ltb a (index_to_page s i + page_size)
                  then 0
                  else s.memory a))
          × IsPmm s')
alloc_page_in_zone-takes s z w l = elim (alloc_page_in_zone-Took s z w l) [
  | inl f ↦ inl f
  | inr (i, s1, s', e, p, t, w') ↦
      let at = (same_bits s s1 i p.rest).1 in
      inr (
        i,
        s',
        e,
        p.free,
        p.bound,
        λ q. t.bits q ∙ ap (λ x. if i == q then true else x) (same_bits s s1 q p.rest).0,
        λ a. t.memory a ∙ rw (at, ap (λ x. x.memory a) p.rest) refl,
        w',
      )
]
