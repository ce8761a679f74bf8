-- ===== src/Pmm/RoundTrip.antt =====
-- kernel/arch/x86_64/pmm.c: a page that is allocated and released.
use rodnix.Prelude.{
  ℕ, ◌<◌, ◌≡◌, ◌≢◌, refl, sym, ap, subst, ◌∙◌, Bool, true, false, ◌==◌, if◌then◌else◌, inl, inr,
  arith,
}
use rodnix.Pmm.State.{Pmm, zone_count}
use rodnix.Pmm.Bits.{bitmap_test, index_to_page}
use rodnix.Pmm.Alloc.{free_page, alloc_page_in_zone}
use rodnix.Pmm.Invariant.{usable, IsPmm, Picked}
use rodnix.Pmm.Taken.{Took, alloc_page_in_zone-Took, same_bits}
use rodnix.Pmm.Given.{IsPlaced, index_to_page-inverse, already_free, free_page-frees}

-- An allocation leaves the managed memory where it is.
placed : (s s1 s' : Pmm) (z i : ℕ) → IsPlaced s → Picked s z i s1 → Took s1 i s' → IsPlaced s'
placed s s1 s' z i g p t =
    let total = t.total ∙ ap Pmm.total_pages p.rest in
    let stop = t.stop ∙ ap Pmm.memory_end p.rest in
    let start = t.start ∙ ap Pmm.memory_start p.rest in
    record {
      fits = rw (total, t.room ∙ ap Pmm.bitmap_size p.rest) g.fits;
      span = rw (total, stop, start) g.span;
      aligned = rw start g.aligned;
      last = rw stop g.last;
    }

twice : (b x : Bool) → (if b then false else (if b then true else x)) ≡ (if b then false else x)
twice true x = refl
twice false x = refl

undone :
    (s s1 s' : Pmm) (z i : ℕ)
    → IsPlaced s
    → Picked s z i s1
    → Took s1 i s'
    → IsPmm s'
    → ((p : ℕ) → bitmap_test (free_page s' (index_to_page s i)) p ≡ bitmap_test s p)
      × IsPmm (free_page s' (index_to_page s i))
undone s s1 s' z i g p t w =
    let g' = placed s s1 s' z i g p t in
    let bound : i < s'.total_pages = rw (t.total, ap Pmm.total_pages p.rest) p.bound in
    let at : index_to_page s' i ≡ index_to_page s i =
      unfold index_to_page in rw (t.start, ap Pmm.memory_start p.rest) refl in
    let (page, index) = index_to_page-inverse s' i g' bound in
    let (bits, w') = free_page-frees s' (index_to_page s' i) w g' in
    let free : bitmap_test s i ≡ false = unfold usable in ground (arith, p.free) in
    let bits' : (q : ℕ) → bitmap_test (free_page s' (index_to_page s' i)) q ≡ bitmap_test s q = λ q.
      bits q
      ∙ rw (page, index, t.bits q, (same_bits s s1 q p.rest).0) (twice (i == q) (bitmap_test s q))
      ∙ sym (already_free s i free q) in
    subst
      (λ a. ((q : ℕ) → bitmap_test (free_page s' a) q ≡ bitmap_test s q) × IsPmm (free_page s' a))
      at (bits', w')

-- pmm_alloc_page_in_zone that returns an address other than 0, followed by pmm_free_page of it,
-- where the bitmap and the free lists agree on the managed memory: every page is as free or used
-- as before both calls, and the bitmap and the free lists agree.
pub alloc-free :
    (s s' : Pmm) (z phys : ℕ)
    → IsPmm s
    → IsPlaced s
    → z < zone_count
    → phys ≢ 0
    → alloc_page_in_zone s z ≡ (phys, s')
    → ((p : ℕ) → bitmap_test (free_page s' phys) p ≡ bitmap_test s p) × IsPmm (free_page s' phys)
alloc-free s s' z phys w g l n e = elim (alloc_page_in_zone-Took s z w l) [
  | inl (f, why) ↦ absurd (n (ap (λ t. t.0) (sym e ∙ f)))
  | inr (i, s1, s2, f, p, t, w') ↦
      subst
        (λ r.
          ((p : ℕ) → bitmap_test (free_page r.1 r.0) p ≡ bitmap_test s p)
          × IsPmm (free_page r.1 r.0))
        (sym f ∙ e) (undone s s1 s2 z i g p t w')
]
