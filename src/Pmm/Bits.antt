-- ===== src/Pmm/Bits.antt =====
-- kernel/arch/x86_64/pmm.c: the bitmap, the marking of ranges and the rebuilding of the free lists.
use rodnix.Prelude.{
  ℕ, zero, suc, ◌+◌, ◌-◌, ◌*◌, ◌/◌, ◌%◌, Bool, true, false, ◌&&◌, ◌||◌, List, [], ◌∷◌, ◌++◌, ◌==◌,
  ltb, leb, if◌then◌else◌, add64, sub64, word, length,
}
use rodnix.Pmm.State.{
  Range, Region, Pmm, page_size, max_regions, low, normal, mmio, put, set_ranges,
}
use rodnix.Pmm.Ranges.{freelist_append}

-- Whether the bitmap has a word for a page.
unfoldable pub has_bit : Pmm → ℕ → Bool
has_bit s i = ltb (i / 32) (s.bitmap_size / 4)

-- pmm_bitmap_set, pmm_bitmap_clear and pmm_bitmap_test.
unfoldable pub bitmap_set : Pmm → ℕ → Pmm
bitmap_set s i = if has_bit s i then record s { bitmap = put s.bitmap i true } else s

unfoldable pub bitmap_clear : Pmm → ℕ → Pmm
bitmap_clear s i = if has_bit s i then record s { bitmap = put s.bitmap i false } else s

unfoldable pub bitmap_test : Pmm → ℕ → Bool
bitmap_test s i = if has_bit s i then s.bitmap i else true

-- pmm_page_to_index and pmm_index_to_page.
unfoldable pub page_to_index : Pmm → ℕ → ℕ
page_to_index s phys = if ltb phys s.memory_start then 0 else (phys - s.memory_start) / page_size

unfoldable pub index_to_page : Pmm → ℕ → ℕ
index_to_page s i = (s.memory_start + i * page_size) % word

-- pmm_bitmap_set_all.
unfoldable pub bitmap_set_all : Pmm → Pmm
bitmap_set_all s = record s { bitmap = λ i. if has_bit s i then true else s.bitmap i }

-- pmm_zero_page.
unfoldable pub zero_page : Pmm → ℕ → Pmm
zero_page s phys = record s {
  memory = λ a. if leb phys a && ltb a (phys + page_size) then 0 else s.memory a;
}

-- pmm_zone_for_addr.
unfoldable pub zone_for_addr : ℕ → ℕ
zone_for_addr a = if ltb a 0x1000000 then low else normal

-- pmm_add_region.
unfoldable pub add_region : List Region → ℕ → ℕ → List Region
add_region rs start len =
    if (len == 0) || leb max_regions (length rs)
    then rs
    else rs ++ record { base = start; length = len } ∷ []

-- The bounds that the marking functions share: a range cut to the memory that is managed.
abbrev pub is_outside : Pmm → ℕ → ℕ → Bool
is_outside s start end = leb end start || leb end s.memory_start || leb s.memory_end start

abbrev pub clamp_start : Pmm → ℕ → ℕ
clamp_start s start = if ltb start s.memory_start then s.memory_start else start

abbrev pub clamp_end : Pmm → ℕ → ℕ
clamp_end s end = if ltb s.memory_end end then s.memory_end else end

-- x & ~(PAGE_SIZE - 1) and (x + PAGE_SIZE - 1) & ~(PAGE_SIZE - 1).
abbrev pub page_down : ℕ → ℕ
page_down x = x - x % page_size

abbrev pub page_up : ℕ → ℕ
page_up x = page_down (add64 x (page_size - 1))

-- The rounds of `for (addr = start; addr < end; addr += PAGE_SIZE)`.
abbrev pub rounds : ℕ → ℕ → ℕ
rounds start end = (end - start + (page_size - 1)) / page_size

-- Runs an operation for each page, with the rounds that are left.
unfoldable pub each_page : (Pmm → ℕ → Pmm) → ℕ → ℕ → Pmm → Pmm
each_page f zero addr s = s
each_page f (suc n) addr s = each_page f n (add64 addr page_size) (f s addr)

-- The descriptor and the statistics of a zone, in which a page becomes used or free.
unfoldable pub desc_free : Pmm → ℕ → Pmm
desc_free s i =
    let d = s.pages i in
    let v = s.zone d.zone in
    let v' = record v { free_pages = add64 v.free_pages 1; used_pages = sub64 v.used_pages 1 } in
    if ltb i s.pages_count
    then record s {
      pages = put s.pages i (record d { is_used = false });
      zone = put s.zone d.zone v';
    }
    else s

unfoldable pub desc_used : Pmm → ℕ → Pmm
desc_used s i =
    let d = s.pages i in
    let v = s.zone d.zone in
    let v' = record v { free_pages = sub64 v.free_pages 1; used_pages = add64 v.used_pages 1 } in
    if ltb i s.pages_count
    then record s {
      pages = put s.pages i (record d { is_used = true });
      zone = put s.zone d.zone v';
    }
    else s

-- A round of pmm_mark_range_free and of pmm_mark_range_used.
unfoldable pub mark_free : Pmm → ℕ → Pmm
mark_free s addr =
    let i = page_to_index s addr in
    let s1 = record (bitmap_clear s i) {
      free_pages = add64 s.free_pages 1;
      used_pages = sub64 s.used_pages 1;
    } in
    if bitmap_test s i then desc_free s1 i else s

unfoldable pub mark_used : Pmm → ℕ → Pmm
mark_used s addr =
    let i = page_to_index s addr in
    let s1 = record (bitmap_set s i) {
      free_pages = sub64 s.free_pages 1;
      used_pages = add64 s.used_pages 1;
    } in
    if bitmap_test s i then s else desc_used s1 i

-- A round of pmm_mark_range_mmio.
unfoldable pub mark_mmio : Pmm → ℕ → Pmm
mark_mmio s addr =
    let i = page_to_index s addr in
    if ltb i s.pages_count
    then record s { pages = put s.pages i (record (s.pages i) { zone = mmio }) }
    else s

-- pmm_mark_range_free, pmm_mark_range_used and pmm_mark_range_mmio.
unfoldable pub mark_range_free : Pmm → ℕ → ℕ → Pmm
mark_range_free s start end =
    let from = page_up (clamp_start s start) in
    let to = page_down (clamp_end s end) in
    if is_outside s start end then s else each_page mark_free (rounds from to) from s

unfoldable pub mark_range_used : Pmm → ℕ → ℕ → Pmm
mark_range_used s start end =
    let from = page_down (clamp_start s start) in
    let to = page_up (clamp_end s end) in
    if is_outside s start end then s else each_page mark_used (rounds from to) from s

unfoldable pub mark_range_mmio : Pmm → ℕ → ℕ → Pmm
mark_range_mmio s start end =
    let from = page_down (clamp_start s start) in
    let to = page_up (clamp_end s end) in
    if (s.pages_count == 0) || is_outside s start end
    then s
    else each_page mark_mmio (rounds from to) from s

-- pmm_freelist_clear.
unfoldable pub freelist_clear : Pmm → Pmm
freelist_clear s = record s {
  zone = λ z. if ltb z 3 then record (s.zone z) { free_ranges = [] } else s.zone z;
}

-- The end of a run of pmm_rebuild_free_lists.
unfoldable pub end_run : Pmm → ℕ → Range → Pmm
end_run s z run = set_ranges s z (freelist_append (s.zone z).free_ranges run.start run.count)

-- The loop of pmm_rebuild_free_lists, from page i on, with its run and the zone of the run.
unfoldable pub rebuild_from : ℕ → ℕ → ℕ → Range → Pmm → Pmm
rebuild_from zero i z run s = if ltb 0 run.count then end_run s z run else s
rebuild_from (suc n) i z run s =
    let here = zone_for_addr (index_to_page s i) in
    let one : Range = record { start = i; count = 1 } in
    let longer = record run { count = run.count + 1 } in
    let extends = (here == z) && (run.start + run.count == i) in
    let (z', run', s') =
      if bitmap_test s i
      then (if ltb 0 run.count then (z, record run { count = 0 }, end_run s z run) else (z, run, s))
      else if run.count == 0
      then (here, one, s)
      else if extends
      then (z, longer, s)
      else (here, one, end_run s z run) in
    rebuild_from n (suc i) z' run' s'

-- pmm_rebuild_free_lists.
unfoldable pub rebuild_free_lists : Pmm → Pmm
rebuild_free_lists s =
    rebuild_from s.total_pages 0 normal (record { start = 0; count = 0 }) (freelist_clear s)
