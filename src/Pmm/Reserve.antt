-- ===== src/Pmm/Reserve.antt =====
-- kernel/arch/x86_64/pmm.c: ranges of memory that are reserved.
use rodnix.Prelude.{
  ℕ, zero, suc, ◌+◌, ◌-◌, ◌*◌, ◌/◌, ◌≤◌, ◌<◌, ◌^◌, ◌≡◌, refl, subst, ◌∙◌, Bool, true, false, ◌&&◌,
  List, ◌==◌, ltb, leb, if◌then◌else◌, add64, Bool-cases, inl, inr, arith,
}
use rodnix.Pmm.State.{Region, Pmm, page_size}
use rodnix.Pmm.Bits.{
  bitmap_test, bitmap_set, has_bit, page_to_index, each_page, desc_used, mark_used, mark_range_used,
  add_region, is_outside, clamp_start, clamp_end, page_down, page_up, rounds,
}
use rodnix.Pmm.Alloc.{reserve_range}
use rodnix.Pmm.Invariant.{IsPmm}
use rodnix.Pmm.Taken.{same_bits}
use rodnix.Pmm.Given.{IsPlaced}
use rodnix.Pmm.Rebuild.{rebuild-IsPmm}

-- What stays where it is.
record SamePlace (s s' : Pmm) : Type 0 where
  start : s'.memory_start ≡ s.memory_start
  end : s'.memory_end ≡ s.memory_end
  total : s'.total_pages ≡ s.total_pages
  room : s'.bitmap_size ≡ s.bitmap_size

mark_used-place : (s : Pmm) (addr : ℕ) → SamePlace s (mark_used s addr)
unfolding mark_used desc_used bitmap_set
mark_used-place s addr = record {
  start = ground arith;
  end = ground arith;
  total = ground arith;
  room = ground arith;
}

mark_used-bits :
    (s : Pmm) (addr i p : ℕ)
    → page_to_index s addr ≡ i
    → i / 32 < s.bitmap_size / 4
    → bitmap_test (mark_used s addr) p ≡ (if i == p then true else bitmap_test s p)
unfolding mark_used desc_used bitmap_set bitmap_test has_bit
mark_used-bits s addr i p e l = ground (arith, e, l)

each_used :
    (n i : ℕ) (s : Pmm) (p : ℕ)
    → s.memory_start + (i + n) * page_size < 2 ^ 64
    → i + n ≤ s.bitmap_size / 4 * 32
    → (bitmap_test (each_page mark_used n (s.memory_start + i * page_size) s) p
        ≡ (if leb i p && ltb p (i + n) then true else bitmap_test s p))
      × SamePlace s (each_page mark_used n (s.memory_start + i * page_size) s)
unfolding each_page
each_used zero i s p l f =
    (ground arith, record { start = refl; end = refl; total = refl; room = refl })
each_used (suc n) i s p l f =
    let addr = s.memory_start + i * page_size in
    let s1 = mark_used s addr in
    let index : page_to_index s addr ≡ i = unfold page_to_index in ground arith in
    let bit = mark_used-bits s addr i p index (omega (arith, f)) in
    let same = mark_used-place s addr in
    let next : add64 addr page_size ≡ s1.memory_start + suc i * page_size =
      omega (arith, same.start, l) in
    let (bits, same') =
      each_used n (suc i) s1 p (omega (arith, same.start, l)) (omega (arith, same.room, f)) in
    rw next (
      bits ∙ rw bit (ground arith),
      record {
        start = same'.start ∙ same.start;
        end = same'.end ∙ same.end;
        total = same'.total ∙ same.total;
        room = same'.room ∙ same.room;
      },
    )

-- Whether a page has a byte in a range of addresses.
unfoldable pub overlaps : Pmm → ℕ → ℕ → ℕ → Bool
overlaps s start end p =
    let addr = s.memory_start + p * page_size in ltb addr end && ltb start (addr + page_size)

mark_range_used-bits :
    (s : Pmm) (start end p : ℕ)
    → IsPlaced s
    → start < end
    → p < s.total_pages
    → (bitmap_test (mark_range_used s start end) p
        ≡ (if overlaps s start end p then true else bitmap_test s p))
      × SamePlace s (mark_range_used s start end)
unfolding mark_range_used overlaps
mark_range_used-bits s start end p g h l = elim (Bool-cases (is_outside s start end)) [
  | inl b ↦
      rw (b, mark_range_used)
        (
          ground (arith, b, h, l, g.span),
          record { start = refl; end = refl; total = refl; room = refl },
        )
  | inr b ↦
      let from = page_down (clamp_start s start) in
      let to = page_up (clamp_end s end) in
      let i = (from - s.memory_start) / page_size in
      let n = rounds from to in
      let at : s.memory_start + i * page_size ≡ from = ground (arith, b, g.aligned) in
      let in_memory : i + n ≤ s.total_pages = ground (arith, b, g.aligned, g.span, g.last) in
      let reach : s.memory_start + (i + n) * page_size ≡ to =
        ground (arith, b, g.aligned, g.span, g.last) in
      let (bits, same) =
        each_used n i s p (omega (arith, in_memory, g.span, g.last))
          (omega (arith, in_memory, g.fits)) in
      rw (b, mark_range_used)
        (subst
          (λ a.
            (bitmap_test (each_page mark_used n a s) p
              ≡ (if overlaps s start end p then true else bitmap_test s p))
            × SamePlace s (each_page mark_used n a s))
          at (bits ∙ ground (arith, b, h, l, g.aligned, g.span, g.last, at, reach), same))
]

with_region :
    (s : Pmm) (rs : List Region) (p : ℕ)
    → bitmap_test (record s { reserved_regions = rs }) p ≡ bitmap_test s p
unfolding bitmap_test has_bit
with_region s rs p = refl

-- pmm_reserve_range of a range of addresses that is not empty, on a managed memory of less than
-- 2 ^ 52 pages: each page that has a byte in the range is in use afterwards, and every other page
-- is as free or used as before, and the bitmap and the free lists agree.
pub reserve_range-reserves :
    (s : Pmm) (start end : ℕ)
    → IsPlaced s
    → s.total_pages < 2 ^ 52
    → start < end
    → (p : ℕ) → p < s.total_pages
    → (bitmap_test (reserve_range s start end) p
        ≡ (if overlaps s start end p then true else bitmap_test s p))
      × IsPmm (reserve_range s start end)
unfolding reserve_range
reserve_range-reserves s start end g small h p l =
    let (bits, same) = mark_range_used-bits s start end p g h l in
    let s1 = mark_range_used s start end in
    let rs = add_region s1.reserved_regions start (end - start) in
    let (w, rest) =
      rebuild-IsPmm (record s1 { reserved_regions = rs }) (omega (arith, same.total, small)) in
    let b : leb end start ≡ false = ground (arith, h) in
    rw (b, reserve_range) ((same_bits _ _ p rest).0 ∙ with_region s1 rs p ∙ bits, w)
