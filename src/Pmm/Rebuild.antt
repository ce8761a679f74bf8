-- ===== src/Pmm/Rebuild.antt =====
-- kernel/arch/x86_64/pmm.c: the free lists that pmm_rebuild_free_lists makes.
use rodnix.Prelude.{
  ℕ, zero, suc, ◌+◌, ◌≤◌, ◌<◌, ◌^◌, ◌≡◌, refl, sym, ap, subst, ◌∙◌, true, false, ◌&&◌, [], ◌==◌,
  length, ltb, if◌then◌else◌, Bool-cases, inl, inr, arith, ==_refl,
}
use rodnix.Pmm.State.{Range, Pmm, zone_count, max_free_ranges, normal}
use rodnix.Pmm.Bits.{
  bitmap_test, index_to_page, zone_for_addr, freelist_clear, end_run, rebuild_from,
  rebuild_free_lists,
}
use rodnix.Pmm.Cover.{covers, covered, top}
use rodnix.Pmm.Solid.{is_solid}
use rodnix.Pmm.Invariant.{usable, IsPmm}
use rodnix.Pmm.Taken.{same_bits}
use rodnix.Pmm.Listing.{Run, skipped, ended, begun, longer}

zone_lt : (a : ℕ) → zone_for_addr a < zone_count
unfolding zone_for_addr
zone_lt a = ground arith

usable_here :
    (s0 s : Pmm) (i : ℕ)
    → s ≡ record s0 { zone = s.zone }
    → bitmap_test s i ≡ false
    → usable s0 (zone_for_addr (index_to_page s i)) i ≡ true
unfolding usable
usable_here s0 s i e b =
    let (same, at) = same_bits s0 s i e in
    let free : bitmap_test s0 i ≡ false = sym same ∙ b in
    rw (at, free) (==_refl (zone_for_addr (index_to_page s0 i)))

used_here :
    (s0 s : Pmm) (i k : ℕ)
    → s ≡ record s0 { zone = s.zone }
    → bitmap_test s i ≡ true
    → usable s0 k i ≡ false
unfolding usable
used_here s0 s i k e b =
    let used : bitmap_test s0 i ≡ true = sym (same_bits s0 s i e).0 ∙ b in rw used refl

-- The lists that the loop leaves.
record Rebuilt (s0 : Pmm) (top_page : ℕ) (s : Pmm) : Type 0 where
  rest : s ≡ record s0 { zone = s.zone }
  listed :
      (k p : ℕ)
      → k < zone_count
      → covered (s.zone k).free_ranges p ≤ (if usable s0 k p then 1 else 0)
  exact :
      (k p : ℕ)
      → k < zone_count
      → length (s.zone k).free_ranges < max_free_ranges
      → covered (s.zone k).free_ranges p ≡ (if usable s0 k p && ltb p top_page then 1 else 0)
  solid : (k : ℕ) → k < zone_count → is_solid (s.zone k).free_ranges ≡ true
  below : (k : ℕ) → k < zone_count → top (s.zone k).free_ranges ≤ top_page

finished :
    (s0 : Pmm) (m z : ℕ) (run : Range) (s : Pmm) → run.count ≡ 0 → Run s0 m z run s → Rebuilt s0 m s
finished s0 m z run s n r = record {
  rest = r.rest;
  exact = λ k p h room. unfold covers in ground (arith, n, r.listed k p h, r.complete k p h room);
  listed = λ k p h. ground (arith, r.listed k p h);
  solid = r.solid;
  below = r.below;
}

rebuild_from-Rebuilt :
    (n i z m : ℕ) (run : Range) (s0 s : Pmm)
    → i + n ≡ m
    → Run s0 i z run s
    → Rebuilt s0 m (rebuild_from n i z run s)
unfolding rebuild_from
rebuild_from-Rebuilt zero i z m run s0 s l r =
    let r' : Run s0 m z run s = subst (λ j. Run s0 j z run s) {x = i} (omega (arith, l)) r in
    elim (Bool-cases (ltb 0 run.count)) [
      | inl b ↦ rw (b, rebuild_from) (finished s0 m z _ _ refl (ended s0 m z run s r'))
      | inr b ↦ rw (b, rebuild_from) (finished s0 m z run s (ground (arith, b)) r')
    ]
rebuild_from-Rebuilt (suc n) i z m run s0 s l r =
    let here = zone_for_addr (index_to_page s i) in
    let closed = ended s0 i z run s r in
    elim (Bool-cases (bitmap_test s i)) [
      | inl a ↦
          let used = λ (k : ℕ). used_here s0 s i k r.rest a in
          elim (Bool-cases (ltb 0 run.count)) [
            | inl b ↦
                rw (a, b, rebuild_from)
                  (rebuild_from-Rebuilt n (suc i) z m _ s0 _ (omega (arith, l))
                    (skipped s0 i z _ _ used closed))
            | inr b ↦
                rw (a, b, rebuild_from)
                  (rebuild_from-Rebuilt n (suc i) z m run s0 s (omega (arith, l))
                    (skipped s0 i z run s used r))
          ]
      | inr a ↦
          let u = usable_here s0 s i r.rest a in
          elim (Bool-cases (run.count == 0)) [
            | inl b ↦
                rw (a, b, rebuild_from)
                  (rebuild_from-Rebuilt n (suc i) here m _ s0 s (omega (arith, l))
                    (begun s0 i z here run s r (ground (arith, b)) u (zone_lt (index_to_page s i))))
            | inr b ↦ elim (Bool-cases ((here == z) && (run.start + run.count == i))) [
              | inl c ↦
                  rw (a, b, c, rebuild_from)
                    (rebuild_from-Rebuilt n (suc i) z m _ s0 s (omega (arith, l)) (
                      longer s0 i z run s r (ground (arith, c))
                        (subst (λ j. usable s0 j i ≡ true) {x = here} (ground (arith, c)) u)))
              | inr c ↦
                  rw (a, b, c, rebuild_from)
                    (rebuild_from-Rebuilt n (suc i) here m _ s0 (end_run s z run) (omega (arith, l))
                      (begun s0 i z here _ (end_run s z run) closed refl u
                        (zone_lt (index_to_page s i))))
            ]
          ]
    ]

lists-IsPmm : (s s' : Pmm) → s.total_pages < 2 ^ 52 → Rebuilt s s.total_pages s' → IsPmm s'
lists-IsPmm s s' l r =
    let total = ap Pmm.total_pages r.rest in
    record {
      listed = λ k p h.
          let (bit, at) = same_bits s s' p r.rest in unfold usable in rw (bit, at) (r.listed k p h);
      solid = r.solid;
      below = λ k h. rw total (r.below k h);
      small = rw total l;
    }

cleared : (s : Pmm) (k : ℕ) → k < zone_count → ((freelist_clear s).zone k).free_ranges ≡ []
unfolding freelist_clear
cleared s k h = ground (arith, h)

cleared-Run : (s : Pmm) → Run s 0 normal (record { start = 0; count = 0 }) (freelist_clear s)
cleared-Run s = record {
  rest = unfold freelist_clear in refl;
  zone = omega arith;
  end = omega arith;
  listed = λ k p h. rw (cleared s k h) (unfold covered covers in ground arith);
  complete = λ k p h room. rw (cleared s k h) (unfold covered covers in ground arith);
  solid = λ k h. rw (cleared s k h) (unfold is_solid in refl);
  below = λ k h. rw (cleared s k h) (unfold top in omega arith);
}

rebuild-Rebuilt : (s : Pmm) → Rebuilt s s.total_pages (rebuild_free_lists s)
unfolding rebuild_free_lists
rebuild-Rebuilt s =
    rebuild_from-Rebuilt s.total_pages 0 normal s.total_pages _ s (freelist_clear s) (omega arith)
      (cleared-Run s)

-- pmm_rebuild_free_lists, on a memory of less than 2 ^ 52 pages, whatever the free lists held
-- before: afterwards the bitmap and the free lists agree, and nothing but the free lists has
-- changed.
pub rebuild-IsPmm :
    (s : Pmm)
    → s.total_pages < 2 ^ 52
    → IsPmm (rebuild_free_lists s)
      × (rebuild_free_lists s ≡ record s { zone = (rebuild_free_lists s).zone })
rebuild-IsPmm s l = let r = rebuild-Rebuilt s in (lists-IsPmm s _ l r, r.rest)

-- pmm_rebuild_free_lists, whatever the free lists held before: the list of a zone that has room
-- left afterwards holds each page of the memory that is free and in the zone exactly once, and no
-- other page; nothing but the free lists has changed.
pub rebuild-covered :
    (s : Pmm) (z : ℕ)
    → z < zone_count
    → length ((rebuild_free_lists s).zone z).free_ranges < max_free_ranges
    → ((p : ℕ)
        → covered ((rebuild_free_lists s).zone z).free_ranges p
          ≡ (if usable s z p && ltb p s.total_pages then 1 else 0))
      × (rebuild_free_lists s ≡ record s { zone = (rebuild_free_lists s).zone })
rebuild-covered s z h room = let r = rebuild-Rebuilt s in (λ p. r.exact z p h room, r.rest)
