-- ===== src/Tests/Pmm.antt =====
-- The physical page allocator on concrete inputs.
use rodnix.Prelude.{
  ℕ, ◌+◌, ◌<◌, ◌≤◌, ◌≡◌, ◌⊎◌, refl, true, false, not, ◌&&◌, [], ◌∷◌, ◌==◌, ◌||◌, ltb, leb, length,
  if◌then◌else◌, arith,
}
use rodnix.Pmm.State.{Pmm, page_size}
use rodnix.Pmm.Ranges.{freelist_append, freelist_remove, remove_from, holds, freelist_insert}
use rodnix.Pmm.Bits.{
  bitmap_test, has_bit, index_to_page, page_to_index, zone_for_addr, rebuild_free_lists,
  rebuild_from, end_run, freelist_clear,
}
use rodnix.Pmm.Alloc.{alloc_page_in_zone, alloc_pages_in_zone, pick_page, free_page, reserve_range}
use rodnix.Pmm.Cover.{covers, covered, top}
use rodnix.Pmm.Lists.{freelist_insert-covered}
use rodnix.Pmm.Solid.{is_solid}
use rodnix.Pmm.Invariant.{usable, IsPmm}
use rodnix.Pmm.Taken.{alloc_page_in_zone-takes}
use rodnix.Pmm.Given.{IsPlaced, is_page, free_page-frees}
use rodnix.Pmm.RoundTrip.{alloc-free}
use rodnix.Pmm.Contiguous.{alloc_pages_in_zone-takes}
use rodnix.Pmm.Rebuild.{rebuild-covered}
use rodnix.Pmm.Reserve.{overlaps, reserve_range-reserves}

-- Pages 1 and 2 of four are free.
abbrev four : Pmm
four = record {
  total_pages = 4;
  free_pages = 2;
  used_pages = 2;
  bitmap_size = 4096;
  bitmap = λ i. not ((i == 1) || (i == 2));
  memory_start = 0x1000000;
  memory_end = 0x1004000;
  pages = λ i. record { zone = 1; is_used = not ((i == 1) || (i == 2)) };
  pages_count = 4;
  zone = λ z. record {
    total_pages = 4;
    free_pages = 2;
    used_pages = 2;
    free_ranges = if z == 1 then record { start = 1; count = 2 } ∷ [] else [];
  };
  usable_regions = [];
  reserved_regions = [];
  memory = λ a. 7;
}

four-IsPmm : IsPmm four
unfolding usable covered covers top is_solid bitmap_test has_bit index_to_page zone_for_addr
four-IsPmm = record {
  listed = λ z p h. ground (arith, h);
  solid = λ z h. ground (arith, h);
  below = λ z h. ground (arith, h);
  small = omega arith;
}

four-IsPlaced : IsPlaced four
four-IsPlaced = record {
  fits = omega arith;
  span = omega arith;
  aligned = omega arith;
  last = omega arith;
}

-- The first free page, and the list without it.
first_page : (alloc_page_in_zone four 1).0 ≡ 0x1001000
unfolding alloc_page_in_zone pick_page freelist_remove remove_from holds index_to_page
first_page = refl

alloc_page_in_zone-takes_example :
    ((alloc_page_in_zone four 1 ≡ (0, four))
      × ((four.free_pages ≡ 0) ⊎ ((p : ℕ) → p < 4 → usable four 1 p ≡ false)))
    ⊎ ((i : ℕ) × (s' : Pmm) × (alloc_page_in_zone four 1 ≡ (index_to_page four i, s'))
        × (usable four 1 i ≡ true)
        × (i < 4)
        × ((p : ℕ) → bitmap_test s' p ≡ (if i == p then true else bitmap_test four p))
        × ((a : ℕ)
            → s'.memory a ≡ (
                if leb (index_to_page four i) a && ltb a (index_to_page four i + page_size)
                then 0
                else 7))
        × IsPmm s')
alloc_page_in_zone-takes_example = alloc_page_in_zone-takes four 1 four-IsPmm (omega arith)

free_page-frees_example :
    ((p : ℕ)
      → bitmap_test (free_page four 0x1003000) p ≡ (
          if is_page four 0x1003000 && (page_to_index four 0x1003000 == p)
          then false
          else bitmap_test four p))
    × IsPmm (free_page four 0x1003000)
free_page-frees_example = free_page-frees four 0x1003000 four-IsPmm four-IsPlaced

alloc-free_example :
    ((p : ℕ)
      → bitmap_test (free_page (alloc_page_in_zone four 1).1 0x1001000) p ≡ bitmap_test four p)
    × IsPmm (free_page (alloc_page_in_zone four 1).1 0x1001000)
unfolding alloc_page_in_zone pick_page freelist_remove remove_from holds index_to_page
alloc-free_example =
    alloc-free four (alloc_page_in_zone four 1).1 1 0x1001000 four-IsPmm four-IsPlaced (omega arith)
      (omega arith) refl

freelist_insert-covered_example :
    (covered (freelist_insert (record { start = 1; count = 2 } ∷ []) 3 1) 3 ≡ 0 + (covers 3 1 3))
    × (top (freelist_insert (record { start = 1; count = 2 } ∷ []) 3 1) ≤ 4)
unfolding covered covers top
freelist_insert-covered_example =
    freelist_insert-covered (record { start = 1; count = 2 } ∷ []) 3 1 3 (omega arith) (omega arith)

-- The same memory, with free lists that hold what is not free.
abbrev misled : Pmm
misled = record four {
  zone = λ z. record (four.zone z) { free_ranges = record { start = 0; count = 4 } ∷ [] };
}

misled_room : length ((rebuild_free_lists misled).zone 1).free_ranges ≡ 1
unfolding rebuild_free_lists rebuild_from end_run freelist_clear freelist_append bitmap_test
    index_to_page zone_for_addr has_bit
misled_room = refl

rebuild-covered_example :
    ((p : ℕ)
      → covered ((rebuild_free_lists misled).zone 1).free_ranges p
        ≡ (if usable misled 1 p && ltb p 4 then 1 else 0))
    × (rebuild_free_lists misled ≡ record misled { zone = (rebuild_free_lists misled).zone })
rebuild-covered_example = rebuild-covered misled 1 (omega arith) (omega (arith, misled_room))

reserve_range-reserves_example :
    (bitmap_test (reserve_range four 0x1001800 0x1001900) 1
      ≡ (if overlaps four 0x1001800 0x1001900 1 then true else bitmap_test four 1))
    × IsPmm (reserve_range four 0x1001800 0x1001900)
reserve_range-reserves_example =
    reserve_range-reserves four 0x1001800 0x1001900 four-IsPlaced (omega arith) (omega arith) 1
      (omega arith)

alloc_pages_in_zone-takes_example :
    (alloc_pages_in_zone four 1 2 ≡ (0, four))
    ⊎ ((i : ℕ) × (s' : Pmm) × (alloc_pages_in_zone four 1 2 ≡ (index_to_page four i, s'))
        × (i + 2 ≤ 4)
        × ((p : ℕ) → covers i 2 p ≤ (if usable four 1 p then 1 else 0))
        × ((p : ℕ)
            → bitmap_test s' p ≡ (if leb i p && ltb p (i + 2) then true else bitmap_test four p))
        × IsPmm s')
alloc_pages_in_zone-takes_example =
    alloc_pages_in_zone-takes four 1 2 four-IsPmm four-IsPlaced (omega arith)
