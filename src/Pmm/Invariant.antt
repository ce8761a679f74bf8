-- ===== src/Pmm/Invariant.antt =====
-- kernel/arch/x86_64/pmm.c: what the bitmap and the free lists agree on, and the page that an
-- allocation picks.
use rodnix.Prelude.{
  ℕ, zero, suc, ◌+◌, ◌≤◌, ◌<◌, ◌^◌, ◌≡◌, refl, ap, subst, ◌⊎◌, Bool, true, false, not, ◌&&◌, some,
  none, List, [], ◌∷◌, ◌==◌, if◌then◌else◌, Bool-cases, List-cases, inl, inr, arith, ==_refl,
}
use rodnix.Pmm.State.{Range, Pmm, zone_count, set_ranges}
use rodnix.Pmm.Ranges.{freelist_remove}
use rodnix.Pmm.Bits.{bitmap_test, index_to_page, zone_for_addr}
use rodnix.Pmm.Alloc.{scan_page, pick_page}
use rodnix.Pmm.Cover.{covers, covered, top}
use rodnix.Pmm.Lists.{freelist_remove-covered}
use rodnix.Pmm.Solid.{is_solid, freelist_remove-is_solid, freelist_remove-first}

-- Whether a page is free and in a zone.
unfoldable pub usable : Pmm → ℕ → ℕ → Bool
usable s z p = not (bitmap_test s p) && (zone_for_addr (index_to_page s p) == z)

-- The free list of each zone holds only pages that are free and in the zone, each at most once;
-- its ranges are not empty and end within the memory, which has less than 2 ^ 52 pages.
pub record IsPmm (s : Pmm) : Type 0 where
  pub listed :
      (z p : ℕ)
      → z < zone_count
      → covered (s.zone z).free_ranges p ≤ (if usable s z p then 1 else 0)
  pub solid : (z : ℕ) → z < zone_count → is_solid (s.zone z).free_ranges ≡ true
  pub below : (z : ℕ) → z < zone_count → top (s.zone z).free_ranges ≤ s.total_pages
  pub small : s.total_pages < 2 ^ 52

-- A search finds a page or shows that there is none.
scan_page-cases :
    (s : Pmm) (z n i : ℕ)
    → ((scan_page s z n i ≡ none) × ((p : ℕ) → i ≤ p → p < i + n → usable s z p ≡ false))
      ⊎ ((p : ℕ) × (scan_page s z n i ≡ some p) × (p < i + n) × (usable s z p ≡ true))
unfolding scan_page
scan_page-cases s z zero i = inl (refl, λ p h k. ground (arith, h, k))
scan_page-cases s z (suc n) i = elim (Bool-cases (usable s z i)) [
  | inl b ↦ inr (i, unfold usable in rw (b, scan_page) refl, omega arith, b)
  | inr b ↦ elim (scan_page-cases s z n (suc i)) [
    | inl (e, none_later) ↦ inl (
      unfold usable in rw (b, scan_page) e,
      λ p h k. elim (Bool-cases (i == p)) [
        | inl c ↦ subst (λ j. usable s z j ≡ false) (ground (arith, c)) b
        | inr c ↦ none_later p (ground (arith, c, h)) (omega (arith, k))
      ],
    )
    | inr (p, e, l, u) ↦ inr (p, unfold usable in rw (b, scan_page) e, omega (arith, l), u)
  ]
]

-- What pmm_alloc_page_in_zone has before its bookkeeping: a page that is free and in the zone, and
-- free lists that hold it no more.
pub record Picked (s : Pmm) (z i : ℕ) (s1 : Pmm) : Type 0 where
  pub free : usable s z i ≡ true
  pub bound : i < s.total_pages
  pub rest : s1 ≡ record s { zone = s1.zone }
  pub listed :
      (k p : ℕ)
      → k < zone_count
      → covered (s1.zone k).free_ranges p + (if k == z then covers i 1 p else 0)
        ≤ (if usable s k p then 1 else 0)
  pub solid : (k : ℕ) → k < zone_count → is_solid (s1.zone k).free_ranges ≡ true
  pub below : (k : ℕ) → k < zone_count → top (s1.zone k).free_ranges ≤ s.total_pages

-- What holds of the free lists after one of them is written.
pub set_ranges-cases :
    (P : ℕ → List Range → Type 0) (s : Pmm) (z : ℕ) (rs : List Range)
    → P z rs
    → (k : ℕ) → ((z == k) ≡ false → P k (s.zone k).free_ranges)
    → P k ((set_ranges s z rs).zone k).free_ranges
set_ranges-cases P s z rs a k b = elim (Bool-cases (z == k)) [
  | inl c ↦ let same : z ≡ k = ground (arith, c) in rw c (subst (λ j. P j rs) same a)
  | inr c ↦ rw c (b c)
]

-- A page that is not in the free list of its zone.
unlisted :
    (s : Pmm) (z i p : ℕ)
    → (s.zone z).free_ranges ≡ []
    → usable s z i ≡ true
    → covered (s.zone z).free_ranges p + covers i 1 p ≤ (if usable s z p then 1 else 0)
unfolding covered covers
unlisted s z i p e u =
    let empty = ap (λ xs. covered xs p) e in
    elim (Bool-cases (i == p)) [
      | inl c ↦
          let same : i ≡ p = ground (arith, c) in
          let u' : usable s z p ≡ true = subst (λ j. usable s z j ≡ true) same u in
          rw u' (ground (arith, empty))
      | inr c ↦ ground (arith, c, empty)
    ]

from_scan :
    (s : Pmm) (z i : ℕ)
    → IsPmm s
    → (s.zone z).free_ranges ≡ []
    → usable s z i ≡ true
    → i < s.total_pages
    → Picked s z i s
from_scan s z i w e u b = record {
  free = u;
  bound = b;
  rest = refl;
  listed = λ k p h. elim (Bool-cases (k == z)) [
    | inl c ↦
        let same : z ≡ k = ground (arith, c) in
        rw c (
          subst
            (λ j. covered (s.zone j).free_ranges p + covers i 1 p ≤ (if usable s j p then 1 else 0))
            same (unlisted s z i p e u))
    | inr c ↦ rw c (omega (arith, w.listed k p h))
  ];
  solid = w.solid;
  below = w.below;
}

from_list :
    (s : Pmm) (z : ℕ) (r : Range) (rs : List Range)
    → IsPmm s
    → z < zone_count
    → (s.zone z).free_ranges ≡ r ∷ rs
    → Picked s z r.start (set_ranges s z (freelist_remove (r ∷ rs) r.start 1).1)
from_list s z r rs w l e =
    let so = subst (λ xs. is_solid xs ≡ true) e (w.solid z l) in
    let be = subst (λ xs. top xs ≤ s.total_pages) e (w.below z l) in
    let li =
      λ (p : ℕ). subst (λ xs. covered xs p ≤ (if usable s z p then 1 else 0)) e (w.listed z p l) in
    let bd : r.start < s.total_pages = unfold top is_solid in ground (arith, so, be) in
    let first = freelist_remove-first r rs (omega (arith, be, w.small)) so in
    let c = λ (p : ℕ).
      freelist_remove-covered (r ∷ rs) r.start 1 p (omega (arith, be, w.small))
        (omega (arith, bd, w.small)) first in
    let rs' = (freelist_remove (r ∷ rs) r.start 1).1 in
    record {
      free = unfold covers in ground (arith, c r.start, li r.start);
      bound = bd;
      rest = refl;
      listed = λ k p h.
          set_ranges-cases
            (λ j xs.
              covered xs p + (if j == z then covers r.start 1 p else 0)
              ≤ (if usable s j p then 1 else 0))
            s z rs' (rw (==_refl z) (omega (arith, c p, li p))) k
            (λ n. ground (arith, n, w.listed k p h));
      solid = λ k h.
          set_ranges-cases (λ j xs. is_solid xs ≡ true) s z rs'
            (freelist_remove-is_solid (r ∷ rs) r.start 1 so) k (λ n. w.solid k h);
      below = λ k h.
          set_ranges-cases (λ j xs. top xs ≤ s.total_pages) s z rs' (omega (arith, c 0, be)) k
            (λ n. w.below k h);
    }

-- pmm_alloc_page_in_zone picks a page, or the zone has none.
pub pick_page-cases :
    (s : Pmm) (z : ℕ)
    → IsPmm s
    → z < zone_count
    → ((pick_page s z ≡ (none, s)) × ((p : ℕ) → p < s.total_pages → usable s z p ≡ false))
      ⊎ ((i : ℕ) × (s1 : Pmm) × (pick_page s z ≡ (some i, s1)) × Picked s z i s1)
unfolding pick_page
pick_page-cases s z w l = elim (List-cases (s.zone z).free_ranges) [
  | inl e ↦ elim (scan_page-cases s z s.total_pages 0) [
    | inl (n, none_left) ↦
        inl (rw (e, n, pick_page) refl, λ p h. none_left p (omega arith) (omega (arith, h)))
    | inr (i, f, b, u) ↦
        inr (i, s, rw (e, f, pick_page) refl, from_scan s z i w e u (omega (arith, b)))
  ]
  | inr (r, rs, e) ↦
      let so = subst (λ xs. is_solid xs ≡ true) e (w.solid z l) in
      let be = subst (λ xs. top xs ≤ s.total_pages) e (w.below z l) in
      let first = freelist_remove-first r rs (omega (arith, be, w.small)) so in
      inr (
        r.start,
        set_ranges s z (freelist_remove (r ∷ rs) r.start 1).1,
        rw (e, first, pick_page) refl,
        from_list s z r rs w l e,
      )
]
