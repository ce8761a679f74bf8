-- ===== src/Pmm/Contiguous.antt =====
-- kernel/arch/x86_64/pmm.c: the allocation of several pages that follow each other.
use rodnix.Prelude.{
  ℕ, ◌+◌, ◌≤◌, ◌<◌, ◌≡◌, refl, ap, ◌∙◌, ◌⊎◌, true, false, ◌&&◌, ◌||◌, ◌==◌, ltb, leb, if◌then◌else◌,
  Bool-cases, inl, inr, arith, ==_refl,
}
use rodnix.Pmm.State.{Range, Pmm, zone_count, set_ranges}
use rodnix.Pmm.Ranges.{freelist_remove}
use rodnix.Pmm.Bits.{bitmap_test, index_to_page, rebuild_free_lists}
use rodnix.Pmm.Alloc.{take_pages, alloc_run, alloc_from, alloc_pages_in_zone}
use rodnix.Pmm.Cover.{covers, covered, top}
use rodnix.Pmm.Lists.{freelist_remove-covered}
use rodnix.Pmm.Solid.{is_solid, freelist_remove-is_solid}
use rodnix.Pmm.Invariant.{usable, IsPmm, set_ranges-cases}
use rodnix.Pmm.Taken.{same_bits, one_zone}
use rodnix.Pmm.Given.{IsPlaced}
use rodnix.Pmm.Rebuild.{rebuild-IsPmm}
use rodnix.Pmm.Run.{Used, take_pages-Used, find_range-cases, scan_run-cases}

-- Free lists from which the pages from i on are gone.
record Withdrawn (s : Pmm) (z i n : ℕ) (s1 : Pmm) : Type 0 where
  free : (p : ℕ) → covers i n p ≤ (if usable s z p then 1 else 0)
  rest : s1 ≡ record s { zone = s1.zone }
  listed :
      (k p : ℕ)
      → k < zone_count
      → covered (s1.zone k).free_ranges p + (if k == z then covers i n p else 0)
        ≤ (if usable s k p then 1 else 0)
  solid : (k : ℕ) → k < zone_count → is_solid (s1.zone k).free_ranges ≡ true
  below : (k : ℕ) → k < zone_count → top (s1.zone k).free_ranges ≤ s.total_pages

usable-Used :
    (s s1 s' : Pmm) (i n k p : ℕ)
    → s1 ≡ record s { zone = s1.zone }
    → Used s1 i n s'
    → usable s' k p ≡ (if leb i p && ltb p (i + n) then false else usable s k p)
unfolding usable index_to_page
usable-Used s s1 s' i n k p e t =
    let b =
      t.bits p ∙ ap (λ x. if leb i p && ltb p (i + n) then true else x) (same_bits s s1 p e).0 in
    let g = t.start ∙ ap (λ x. x.memory_start) e in rw (b, g) (ground arith)

-- A page that is taken is in no free list.
no_longer_listed :
    (s s1 : Pmm) (z i n k p : ℕ)
    → Withdrawn s z i n s1
    → k < zone_count
    → (leb i p && ltb p (i + n)) ≡ true
    → covered (s1.zone k).free_ranges p ≡ 0
unfolding covers
no_longer_listed s s1 z i n k p w h c = elim (Bool-cases (k == z)) [
  | inl d ↦ ground (arith, d, c, w.listed k p h)
  | inr d ↦
      let u : usable s z p ≡ true = ground (arith, c, w.free p) in
      ground (arith, d, one_zone s z k p u d, w.listed k p h)
]

take_pages-IsPmm :
    (s s1 s' : Pmm) (z i n : ℕ) → IsPmm s → Withdrawn s z i n s1 → Used s1 i n s' → IsPmm s'
take_pages-IsPmm s s1 s' z i n w p t = record {
  listed = λ k q h.
      rw (t.lists k, usable-Used s s1 s' i n k q p.rest t)
        (elim (Bool-cases (leb i q && ltb q (i + n))) [
          | inl c ↦ rw c (omega (arith, no_longer_listed s s1 z i n k q p h c))
          | inr c ↦ rw c (omega (arith, p.listed k q h))
        ]);
  solid = λ k h. rw (t.lists k) (p.solid k h);
  below = λ k h. rw (t.lists k, t.total, ap Pmm.total_pages p.rest) (p.below k h);
  small = rw (t.total, ap Pmm.total_pages p.rest) w.small;
}

withdraw :
    (s : Pmm) (z i n : ℕ)
    → IsPmm s
    → z < zone_count
    → i + n ≤ s.total_pages
    → (freelist_remove (s.zone z).free_ranges i n).0 ≡ true
    → Withdrawn s z i n (set_ranges s z (freelist_remove (s.zone z).free_ranges i n).1)
withdraw s z i n w l b e =
    let old = (s.zone z).free_ranges in
    let new = (freelist_remove old i n).1 in
    let c = λ (p : ℕ).
      freelist_remove-covered old i n p (omega (arith, w.below z l, w.small))
        (omega (arith, b, w.small)) e in
    record {
      free = λ p. omega (arith, c p, w.listed z p l);
      rest = refl;
      listed = λ k p h.
          set_ranges-cases
            (λ j xs.
              covered xs p + (if j == z then covers i n p else 0) ≤ (if usable s j p then 1 else 0))
            s z new (rw (==_refl z) (omega (arith, c p, w.listed z p l))) k
            (λ m. ground (arith, m, w.listed k p h));
      solid = λ k h.
          set_ranges-cases (λ j xs. is_solid xs ≡ true) s z new
            (freelist_remove-is_solid old i n (w.solid z l)) k (λ m. w.solid k h);
      below = λ k h.
          set_ranges-cases (λ j xs. top xs ≤ s.total_pages) s z new
            (omega (arith, c 0, w.below z l)) k (λ m. w.below k h);
    }

-- The replies of an allocation of several pages.
Replied : Pmm → ℕ → ℕ → ℕ × Pmm → Type 0
Replied s z count r =
    (r ≡ (0, s))
    ⊎ ((i : ℕ) × (s' : Pmm) × (r ≡ (index_to_page s i, s'))
        × (i + count ≤ s.total_pages)
        × ((p : ℕ) → covers i count p ≤ (if usable s z p then 1 else 0))
        × ((p : ℕ)
            → bitmap_test s' p ≡ (if leb i p && ltb p (i + count) then true else bitmap_test s p))
        × IsPmm s')

alloc_run-Replied :
    (s : Pmm) (z count : ℕ) → IsPmm s → IsPlaced s → Replied s z count (alloc_run s z count)
unfolding alloc_run Replied
alloc_run-Replied s z count w g =
    elim (scan_run-cases s z count s.total_pages 0 0 0 (inl refl)
      (λ p. unfold covers in ground arith)) [
        | inl e ↦ inl (rw (e, alloc_run) refl)
        | inr (a, e, l, f) ↦
            let t = take_pages-Used s z a count (omega (arith, l, g.fits)) in
            let (w', rest) =
              rebuild-IsPmm (take_pages s z a count) (omega (arith, t.total, w.small)) in
            inr (
              a,
              rebuild_free_lists (take_pages s z a count),
              rw (e, alloc_run) refl,
              omega (arith, l),
              f,
              λ p. (same_bits _ _ p rest).0 ∙ t.bits p,
              w',
            )
      ]

alloc_from-Replied :
    (s : Pmm) (z count : ℕ) (r : Range)
    → IsPmm s
    → IsPlaced s
    → z < zone_count
    → r.start + count ≤ s.total_pages
    → Replied s z count (alloc_from s z count r)
unfolding alloc_from Replied
alloc_from-Replied s z count r w g l b =
    elim (Bool-cases (freelist_remove (s.zone z).free_ranges r.start count).0) [
      | inr e ↦ inl (rw (e, alloc_from) refl)
      | inl e ↦
          let s1 = set_ranges s z (freelist_remove (s.zone z).free_ranges r.start count).1 in
          let p = withdraw s z r.start count w l b e in
          let t = take_pages-Used s1 z r.start count (omega (arith, b, g.fits)) in
          inr (
            r.start,
            take_pages s1 z r.start count,
            rw (e, alloc_from) refl,
            b,
            p.free,
            λ q.
                t.bits q
                ∙ ap (λ x. if leb r.start q && ltb q (r.start + count) then true else x)
                    (same_bits s s1 q p.rest).0,
            take_pages-IsPmm s s1 (take_pages s1 z r.start count) z r.start count w p t,
          )
    ]

-- pmm_alloc_pages_in_zone, in PMM_ZONE_LOW, PMM_ZONE_NORMAL or PMM_ZONE_MMIO, where the bitmap and
-- the free lists agree on the managed memory: either it returns 0 and changes nothing, or it
-- returns the address of the first of `count` pages that follow each other within the memory. Each
-- of them was free and in the zone and is now used, every other page is as free or used as before,
-- and the bitmap and the free lists agree again.
pub alloc_pages_in_zone-takes :
    (s : Pmm) (z count : ℕ)
    → IsPmm s
    → IsPlaced s
    → z < zone_count
    → (alloc_pages_in_zone s z count ≡ (0, s))
      ⊎ ((i : ℕ) × (s' : Pmm) × (alloc_pages_in_zone s z count ≡ (index_to_page s i, s'))
          × (i + count ≤ s.total_pages)
          × ((p : ℕ) → covers i count p ≤ (if usable s z p then 1 else 0))
          × ((p : ℕ)
              → bitmap_test s' p ≡ (if leb i p && ltb p (i + count) then true else bitmap_test s p))
          × IsPmm s')
unfolding alloc_pages_in_zone Replied
alloc_pages_in_zone-takes s z count w g l = elim (Bool-cases ((count == 0) || leb zone_count z)) [
  | inl a ↦ inl (rw (a, alloc_pages_in_zone) refl)
  | inr a ↦ elim (Bool-cases (ltb s.free_pages count)) [
    | inl b ↦ inl (rw (a, b, alloc_pages_in_zone) refl)
    | inr b ↦ elim (find_range-cases (s.zone z).free_ranges count) [
      | inl e ↦ rw (a, b, e, alloc_pages_in_zone) (alloc_run-Replied s z count w g)
      | inr (r, e, t) ↦
          rw (a, b, e, alloc_pages_in_zone)
            (alloc_from-Replied s z count r w g l (omega (arith, t, w.below z l)))
    ]
  ]
]
