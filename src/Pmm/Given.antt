-- ===== src/Pmm/Given.antt =====
-- kernel/arch/x86_64/pmm.c: the release of a page.
use rodnix.Prelude.{
  ℕ, ◌+◌, ◌*◌, ◌/◌, ◌%◌, ◌≤◌, ◌<◌, ◌^◌, ◌≡◌, refl, sym, ap, subst, ◌∙◌, Bool, true, false, not,
  ◌&&◌, ◌||◌, List, ◌==◌, ltb, leb, if◌then◌else◌, Bool-cases, inl, inr, arith, ==_refl,
}
use rodnix.Pmm.State.{Range, Pmm, zone_count, page_size, set_ranges}
use rodnix.Pmm.Ranges.{freelist_insert}
use rodnix.Pmm.Bits.{
  bitmap_test, bitmap_clear, has_bit, index_to_page, page_to_index, zone_for_addr,
}
use rodnix.Pmm.Alloc.{clear_page, give_page, free_page}
use rodnix.Pmm.Cover.{covers, covered, top}
use rodnix.Pmm.Lists.{freelist_insert-covered}
use rodnix.Pmm.Solid.{is_solid, freelist_insert-is_solid}
use rodnix.Pmm.Invariant.{usable, IsPmm, set_ranges-cases}

-- The managed memory: whole pages, from an address on a page boundary to `memory_end`, with a bit
-- of the bitmap for each.
pub record IsPlaced (s : Pmm) : Type 0 where
  pub fits : s.total_pages ≤ s.bitmap_size / 4 * 32
  pub span : s.memory_start + s.total_pages * page_size ≡ s.memory_end
  pub aligned : s.memory_start % page_size ≡ 0
  pub last : s.memory_end < 2 ^ 64

-- The addresses that pmm_free_page takes.
unfoldable pub is_page : Pmm → ℕ → Bool
is_page s phys = not (ltb phys s.memory_start || leb s.memory_end phys) && (phys % page_size == 0)

-- The index of such an address, and back.
pub page_to_index-inverse :
    (s : Pmm) (phys : ℕ)
    → IsPlaced s
    → is_page s phys ≡ true
    → (page_to_index s phys < s.total_pages) × (index_to_page s (page_to_index s phys) ≡ phys)
unfolding page_to_index index_to_page is_page
page_to_index-inverse s phys g e =
    (ground (arith, e, g.span, g.aligned), ground (arith, e, g.span, g.aligned, g.last))

pub index_to_page-inverse :
    (s : Pmm) (i : ℕ)
    → IsPlaced s
    → i < s.total_pages
    → (is_page s (index_to_page s i) ≡ true) × (page_to_index s (index_to_page s i) ≡ i)
unfolding page_to_index index_to_page is_page
index_to_page-inverse s i g l =
    (ground (arith, l, g.span, g.aligned, g.last), ground (arith, l, g.span, g.aligned, g.last))

record Gave (s : Pmm) (i : ℕ) (s' : Pmm) : Type 0 where
  bits : (p : ℕ) → bitmap_test s' p ≡ (if i == p then false else bitmap_test s p)
  lists : (k : ℕ) → (s'.zone k).free_ranges ≡ (s.zone k).free_ranges
  start : s'.memory_start ≡ s.memory_start
  total : s'.total_pages ≡ s.total_pages

clear_page-Gave :
    (s : Pmm) (phys i : ℕ) → IsPlaced s → i < s.total_pages → Gave s i (clear_page s phys i)
unfolding clear_page bitmap_clear bitmap_test has_bit
clear_page-Gave s phys i g l = record {
  bits = λ p. ground (arith, l, g.fits);
  lists = λ k. ground arith;
  start = ground arith;
  total = ground arith;
}

usable-Gave :
    (s s' : Pmm) (i k p : ℕ)
    → Gave s i s'
    → usable s' k p ≡ (if i == p then zone_for_addr (index_to_page s p) == k else usable s k p)
unfolding usable index_to_page
usable-Gave s s' i k p g = rw (g.bits p, g.start) (ground arith)

-- The page that returns is in no free list before.
used_unlisted :
    (s : Pmm) (i k : ℕ)
    → IsPmm s
    → bitmap_test s i ≡ true
    → k < zone_count
    → covered (s.zone k).free_ranges i ≡ 0
unfolding usable
used_unlisted s i k w u h = ground (arith, u, w.listed k i h)

held :
    (s s' : Pmm) (z i k p : ℕ)
    → IsPmm s
    → Gave s i s'
    → bitmap_test s i ≡ true
    → zone_for_addr (index_to_page s i) ≡ z
    → k < zone_count
    → covered (s'.zone k).free_ranges p + (if z == k then covers i 1 p else 0)
      ≤ (if usable s' k p then 1 else 0)
unfolding covers
held s s' z i k p w g u at h =
    rw (g.lists k, usable-Gave s s' i k p g)
      (elim (Bool-cases (i == p)) [
        | inl c ↦
            let same : i ≡ p = ground (arith, c) in
            let at' : zone_for_addr (index_to_page s p) ≡ z =
              ap (λ j. zone_for_addr (index_to_page s j)) (sym same) ∙ at in
            let none : covered (s.zone k).free_ranges p ≡ 0 =
              ap (covered (s.zone k).free_ranges) (sym same) ∙ used_unlisted s i k w u h in
            rw (c, at') (ground (arith, none))
        | inr c ↦ rw c (ground (arith, c, w.listed k p h))
      ])

usable-set_ranges :
    (s : Pmm) (z k p : ℕ) (rs : List Range) → usable (set_ranges s z rs) k p ≡ usable s k p
unfolding usable bitmap_test has_bit index_to_page
usable-set_ranges s z k p rs = refl

given-IsPmm :
    (s s' : Pmm) (z i : ℕ)
    → IsPmm s
    → Gave s i s'
    → i < s.total_pages
    → bitmap_test s i ≡ true
    → zone_for_addr (index_to_page s i) ≡ z
    → z < zone_count
    → IsPmm (set_ranges s' z (freelist_insert (s'.zone z).free_ranges i 1))
given-IsPmm s s' z i w g l u at h =
    let old = (s'.zone z).free_ranges in
    let new = freelist_insert old i 1 in
    let t : top old ≤ s.total_pages = rw (g.lists z) (w.below z h) in
    let so : is_solid old ≡ true = rw (g.lists z) (w.solid z h) in
    let lo : top old < 2 ^ 64 = omega (arith, t, w.small) in
    let li : i + 1 < 2 ^ 64 = omega (arith, l, w.small) in
    let c = λ (p : ℕ). freelist_insert-covered old i 1 p lo li in
    record {
      listed = λ k p h'. rw (usable-set_ranges s' z k p new) (
          set_ranges-cases (λ j xs. covered xs p ≤ (if usable s' j p then 1 else 0)) s' z new
            (ground (arith, c p, ==_refl z, held s s' z i z p w g u at h)) k
            (λ n. omega (arith, held s s' z i k p w g u at h')));
      solid = λ k h'.
          set_ranges-cases (λ j xs. is_solid xs ≡ true) s' z new
            (freelist_insert-is_solid old i 1 lo li so) k (λ n. rw (g.lists k) (w.solid k h'));
      below = λ k h'.
          set_ranges-cases (λ j xs. top xs ≤ s'.total_pages) s' z new
            (omega (arith, c 0, t, l, g.total)) k (λ n. rw (g.lists k, g.total) (w.below k h'));
      small = rw g.total w.small;
    }

free_page-cases :
    (s : Pmm) (phys : ℕ)
    → free_page s phys ≡ (
        if is_page s phys && bitmap_test s (page_to_index s phys)
        then give_page s phys (page_to_index s phys)
        else s)
unfolding free_page is_page
free_page-cases s phys = elim (Bool-cases (ltb phys s.memory_start || leb s.memory_end phys)) [
  | inl a ↦ rw (a, free_page) refl
  | inr a ↦ elim (Bool-cases (phys % page_size == 0)) [
    | inl b ↦ rw (a, b, free_page) refl
    | inr b ↦ rw (a, b, free_page) refl
  ]
]

given_page :
    (s : Pmm) (phys : ℕ)
    → IsPmm s
    → IsPlaced s
    → is_page s phys ≡ true
    → bitmap_test s (page_to_index s phys) ≡ true
    → ((p : ℕ)
        → bitmap_test (give_page s phys (page_to_index s phys)) p
          ≡ (if page_to_index s phys == p then false else bitmap_test s p))
      × IsPmm (give_page s phys (page_to_index s phys))
unfolding give_page bitmap_test has_bit
given_page s phys w g e u =
    let i = page_to_index s phys in
    let (l, at) = page_to_index-inverse s phys g e in
    let gave = clear_page-Gave s phys i g l in
    (
      gave.bits,
      given-IsPmm s (clear_page s phys i) (zone_for_addr phys) i w gave l u (ap zone_for_addr at)
          (unfold zone_for_addr in ground arith),
    )

pub already_free :
    (s : Pmm) (i : ℕ)
    → bitmap_test s i ≡ false
    → (p : ℕ) → bitmap_test s p ≡ (if i == p then false else bitmap_test s p)
already_free s i u p = elim (Bool-cases (i == p)) [
  | inl c ↦
      let same : i ≡ p = ground (arith, c) in rw c (subst (λ j. bitmap_test s j ≡ false) same u)
  | inr c ↦ rw c refl
]

-- pmm_free_page of any address, where the bitmap and the free lists agree on the managed memory: if
-- the address is that of a managed page, the page is free afterwards, whether it was in use or
-- not; every other page is as free or used as before, and so are all for any other address. The
-- bitmap and the free lists agree again, also where the table of a zone is full.
pub free_page-frees :
    (s : Pmm) (phys : ℕ)
    → IsPmm s
    → IsPlaced s
    → ((p : ℕ)
        → bitmap_test (free_page s phys) p
          ≡ (if is_page s phys && (page_to_index s phys == p) then false else bitmap_test s p))
      × IsPmm (free_page s phys)
free_page-frees s phys w g =
    let i = page_to_index s phys in
    elim (Bool-cases (is_page s phys)) [
      | inr e ↦ rw (free_page-cases s phys, e) ((λ p. refl), w)
      | inl e ↦ elim (Bool-cases (bitmap_test s i)) [
        | inl u ↦ rw (free_page-cases s phys, e, u) (given_page s phys w g e u)
        | inr u ↦ rw (free_page-cases s phys, e, u) (already_free s i u, w)
      ]
    ]
