-- ===== src/Pmm/Alloc.antt =====
-- kernel/arch/x86_64/pmm.c: the allocation and the release of pages.
use rodnix.Prelude.{
  ℕ, zero, suc, ◌+◌, ◌-◌, ◌*◌, ◌%◌, ◌^◌, true, false, not, ◌&&◌, ◌||◌, Option, some, none, List, [],
  ◌∷◌, ◌==◌, ltb, leb, if◌then◌else◌, add64, sub64,
}
use rodnix.Pmm.State.{Range, Zone, Pmm, page_size, zone_count, low, normal, put, set_ranges}
use rodnix.Pmm.Ranges.{freelist_insert, freelist_remove}
use rodnix.Pmm.Bits.{
  bitmap_set, bitmap_clear, bitmap_test, page_to_index, index_to_page, zero_page, zone_for_addr,
  add_region, mark_range_free, mark_range_used, rebuild_free_lists,
}

-- The search of the bitmap in pmm_alloc_page_in_zone, from page i on.
unfoldable pub scan_page : Pmm → ℕ → ℕ → ℕ → Option ℕ
scan_page s z zero i = none
scan_page s z (suc n) i =
    let rest = scan_page s z n (suc i) in
    if not (bitmap_test s i) && (zone_for_addr (index_to_page s i) == z) then some i else rest

-- The page that pmm_alloc_page_in_zone takes, and the free list without it.
unfoldable pub pick_page : Pmm → ℕ → Option ℕ × Pmm
pick_page s z = elim (s.zone z).free_ranges [
  | [] ↦ (scan_page s z s.total_pages 0, s)
  | r ∷ rs ↦
      let (removed, rs') = freelist_remove (r ∷ rs) r.start 1 in
      (
        if removed then some r.start else scan_page s z s.total_pages 0,
        if removed then set_ranges s z rs' else s,
      )
]

-- The statistics of a zone from which pages go, if it has that many.
abbrev pub zone_takes : Zone → ℕ → Zone
zone_takes v n = record v { free_pages = sub64 v.free_pages n; used_pages = add64 v.used_pages n }

-- The bookkeeping of pmm_alloc_page_in_zone for the page it has picked.
unfoldable pub take_page : Pmm → ℕ → ℕ → Pmm
take_page s z i =
    let s1 = record (bitmap_set s i) {
      free_pages = sub64 s.free_pages 1;
      used_pages = add64 s.used_pages 1;
    } in
    let s2 = zero_page s1 (index_to_page s i) in
    let v = s2.zone z in
    if ltb i s2.pages_count
    then record s2 {
      pages = put s2.pages i (record (s2.pages i) { is_used = true });
      zone = if ltb 0 v.free_pages then put s2.zone z (zone_takes v 1) else s2.zone;
    }
    else s2

-- pmm_alloc_page_in_zone; 0 is a failure.
unfoldable pub alloc_page_in_zone : Pmm → ℕ → ℕ × Pmm
alloc_page_in_zone s z =
    let (picked, s1) = pick_page s z in
    if (s.free_pages == 0) || leb zone_count z
    then (0, s)
    else elim picked [ none ↦ (0, s1) | some i ↦ (index_to_page s1 i, take_page s1 z i) ]

-- pmm_alloc_page.
unfoldable pub alloc_page : Pmm → ℕ × Pmm
alloc_page s =
    let (phys, s1) = alloc_page_in_zone s normal in
    let second = alloc_page_in_zone s1 low in if phys == 0 then second else (phys, s1)

-- The bitmap and the statistics in pmm_free_page for a page in use.
unfoldable pub clear_page : Pmm → ℕ → ℕ → Pmm
clear_page s phys i =
    let z = zone_for_addr phys in
    let s1 = record (bitmap_clear s i) {
      free_pages = add64 s.free_pages 1;
      used_pages = sub64 s.used_pages 1;
    } in
    let v = s1.zone z in
    let v' = record v {
      free_pages = add64 v.free_pages 1;
      used_pages = if ltb 0 v.used_pages then sub64 v.used_pages 1 else v.used_pages;
    } in
    if ltb i s1.pages_count
    then record s1 {
      pages = put s1.pages i (record (s1.pages i) { is_used = false });
      zone = put s1.zone z v';
    }
    else s1

-- pmm_free_page for a page in use.
unfoldable pub give_page : Pmm → ℕ → ℕ → Pmm
give_page s phys i =
    let s1 = clear_page s phys i in
    let z = zone_for_addr phys in set_ranges s1 z (freelist_insert (s1.zone z).free_ranges i 1)

-- pmm_free_page.
unfoldable pub free_page : Pmm → ℕ → Pmm
free_page s phys =
    let i = page_to_index s phys in
    if ltb phys s.memory_start || leb s.memory_end phys
    then s
    else if not (phys % page_size == 0)
    then s
    else if bitmap_test s i
    then give_page s phys i
    else s

-- The first range of a free list with as many pages.
unfoldable pub find_range : List Range → ℕ → Option Range
find_range [] count = none
find_range (r ∷ rs) count =
    let rest = find_range rs count in if leb count r.count then some r else rest

-- The loops of pmm_alloc_pages_in_zone that mark the pages and that clear them.
unfoldable pub use_pages : ℕ → ℕ → Pmm → Pmm
use_pages zero i s = s
use_pages (suc n) i s =
    let s1 = bitmap_set s i in
    let s2 =
      if ltb i s1.pages_count
      then record s1 { pages = put s1.pages i (record (s1.pages i) { is_used = true }) }
      else s1 in
    use_pages n (suc i) s2

unfoldable pub zero_pages : ℕ → ℕ → Pmm → Pmm
zero_pages zero phys s = s
zero_pages (suc n) phys s = zero_pages n (add64 phys page_size) (zero_page s phys)

-- What both paths of pmm_alloc_pages_in_zone do with the pages they have found.
unfoldable pub take_pages : Pmm → ℕ → ℕ → ℕ → Pmm
take_pages s z start count =
    let s1 = use_pages count start s in
    let v = s1.zone z in
    let s2 = record s1 {
      free_pages = sub64 s1.free_pages count;
      used_pages = add64 s1.used_pages count;
      zone = if leb count v.free_pages then put s1.zone z (zone_takes v count) else s1.zone;
    } in
    zero_pages count (index_to_page s2 start) s2

-- The search of the bitmap for a run of pages, from page i on, with the start and the length of
-- the run.
unfoldable pub scan_run : Pmm → ℕ → ℕ → ℕ → ℕ → ℕ → ℕ → Option ℕ
scan_run s z count zero i run_start run_count = none
scan_run s z count (suc n) i run_start run_count =
    let usable = not (bitmap_test s i) && (zone_for_addr (index_to_page s i) == z) in
    let start = if run_count == 0 then i else run_start in
    let length = run_count + 1 in
    let rest =
      scan_run s z count n (suc i) (if usable then start else run_start)
        (if usable then length else 0) in
    if usable && leb count length then some start else rest

-- pmm_alloc_pages_in_zone where the free list has no range to take.
unfoldable pub alloc_run : Pmm → ℕ → ℕ → ℕ × Pmm
alloc_run s z count = elim (scan_run s z count s.total_pages 0 0 0) [
  | none ↦ (0, s)
  | some start ↦ (index_to_page s start, rebuild_free_lists (take_pages s z start count))
]

-- pmm_alloc_pages_in_zone with the range it has found.
unfoldable pub alloc_from : Pmm → ℕ → ℕ → Range → ℕ × Pmm
alloc_from s z count r =
    let (removed, rs) = freelist_remove (s.zone z).free_ranges r.start count in
    if removed
    then (index_to_page s r.start, take_pages (set_ranges s z rs) z r.start count)
    else (0, s)

-- pmm_alloc_pages_in_zone; 0 is a failure.
unfoldable pub alloc_pages_in_zone : Pmm → ℕ → ℕ → ℕ × Pmm
alloc_pages_in_zone s z count =
    if (count == 0) || leb zone_count z
    then (0, s)
    else if ltb s.free_pages count
    then (0, s)
    else elim (find_range (s.zone z).free_ranges count) [
      | none ↦ alloc_run s z count
      | some r ↦ alloc_from s z count r
    ]

-- pmm_alloc_pages.
unfoldable pub alloc_pages : Pmm → ℕ → ℕ × Pmm
alloc_pages s count =
    let (phys, s1) = alloc_pages_in_zone s normal count in
    let second = alloc_pages_in_zone s1 low count in if phys == 0 then second else (phys, s1)

-- The loop of pmm_free_pages, from page i on; `i * PAGE_SIZE` is a 32-bit product.
unfoldable pub free_pages_from : ℕ → ℕ → ℕ → Pmm → Pmm
free_pages_from zero i phys s = s
free_pages_from (suc n) i phys s =
    free_pages_from n (suc i) phys (free_page s (add64 phys (i * page_size % 2 ^ 32)))

-- pmm_free_pages.
unfoldable pub free_pages : Pmm → ℕ → ℕ → Pmm
free_pages s phys count = free_pages_from count 0 phys s

-- pmm_reserve_range and pmm_release_range.
unfoldable pub reserve_range : Pmm → ℕ → ℕ → Pmm
reserve_range s start end =
    let s1 = mark_range_used s start end in
    let s2 = record s1 { reserved_regions = add_region s1.reserved_regions start (end - start) } in
    if leb end start then s else rebuild_free_lists s2

unfoldable pub release_range : Pmm → ℕ → ℕ → Pmm
release_range s start end =
    if leb end start then s else rebuild_free_lists (mark_range_free s start end)
