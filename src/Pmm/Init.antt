-- ===== src/Pmm/Init.antt =====
-- kernel/arch/x86_64/pmm.c: how the allocator starts.
use rodnix.Prelude.{
  ℕ, zero, suc, ◌+◌, ◌-◌, ◌*◌, ◌/◌, ◌%◌, true, false, not, ◌&&◌, ◌||◌, [], ◌==◌, ltb, leb,
  if◌then◌else◌, add64, sub64, word, Status, ok, invalid,
}
use rodnix.Pmm.State.{Pmm, page_size, bitmap_max_size, put}
use rodnix.Pmm.Bits.{
  bitmap_set_all, zone_for_addr, add_region, page_down, page_up, mark_range_free, mark_range_used,
  mark_range_mmio, rebuild_free_lists,
}

-- `struct mb2_mmap_entry`; MB2_MMAP_AVAILABLE is 1.
pub record MmapEntry : Type 0 where
  pub addr : ℕ
  pub len : ℕ
  pub type : ℕ

-- The bytes of a bitmap for so many pages.
unfoldable pub bitmap_bytes : ℕ → ℕ
bitmap_bytes total = page_up (add64 total 7 / 8)

-- The address of the descriptors, behind the bitmap.
unfoldable pub desc_phys : ℕ → ℕ → ℕ
desc_phys bitmap_phys bitmap_size = let x = add64 (add64 bitmap_phys bitmap_size) 7 in x - x % 8

-- pmm_setup_page_descs; sizeof(pmm_page_desc_t) is 16.
unfoldable pub setup_page_descs : Pmm → ℕ → ℕ → ℕ → ℕ → Pmm
setup_page_descs s memory_start memory_end bitmap_phys bitmap_size =
    let total = sub64 memory_end memory_start / page_size in
    let end = add64 (desc_phys bitmap_phys bitmap_size) (total * 16 % word) in
    if ltb 0x1000000 end then record s { pages_count = 0 } else record s {
      pages_count = total;
      pages = λ i.
          if ltb i total
          then record {
            zone = zone_for_addr ((memory_start + i * page_size) % word);
            is_used = true;
          }
          else s.pages i;
    }

-- The zones without pages; their free lists are as they were.
unfoldable pub clear_zones : Pmm → Pmm
clear_zones s = record s {
  zone = λ z.
      if ltb z 3
      then record (s.zone z) { total_pages = 0; free_pages = 0; used_pages = 0 }
      else s.zone z;
}

-- The loop of pmm_init over the descriptors, from page i on, and that of pmm_init_from_mmap.
unfoldable pub count_free : ℕ → ℕ → Pmm → Pmm
count_free zero i s = s
count_free (suc n) i s =
    let d = s.pages i in
    let v = s.zone d.zone in
    count_free n (suc i) (record s {
      pages = put s.pages i (record d { is_used = false });
      zone =
          put s.zone d.zone
            (record v { total_pages = v.total_pages + 1; free_pages = v.free_pages + 1 });
    })

unfoldable pub count_used : ℕ → ℕ → Pmm → Pmm
count_used zero i s = s
count_used (suc n) i s =
    let d = s.pages i in
    let v = s.zone d.zone in
    count_used n (suc i) (record s {
      pages = put s.pages i (record d { is_used = true });
      zone =
          put s.zone d.zone
            (record v { total_pages = v.total_pages + 1; used_pages = v.used_pages + 1 });
    })

-- pmm_init; `bitmap_virt` is 0 for NULL.
unfoldable pub init : Pmm → ℕ → ℕ → ℕ → Status × Pmm
init s memory_start memory_end bitmap_virt =
    let from = page_up memory_start in
    let to = page_down memory_end in
    let total = sub64 to from / page_size in
    let size = bitmap_bytes total in
    let s1 = clear_zones (record s {
      total_pages = total;
      free_pages = total;
      used_pages = 0;
      bitmap_size = size;
      bitmap = λ i. if ltb (i / 32) (size / 4) then false else s.bitmap i;
      memory_start = from;
      memory_end = to;
      usable_regions = [];
      reserved_regions = [];
    }) in
    let s2 = setup_page_descs s1 from to bitmap_virt size in
    let s3 = count_free s2.pages_count 0 s2 in
    let s4 = record s3 { usable_regions = add_region s3.usable_regions from (sub64 to from) } in
    if (bitmap_virt == 0) || leb memory_end memory_start
    then (invalid, s)
    else (ok, rebuild_free_lists s4)

-- The first loop of pmm_init_from_mmap over the entries, from entry i on.
unfoldable pub note_regions : (ℕ → MmapEntry) → ℕ → ℕ → Pmm → Pmm
note_regions entry zero i s = s
note_regions entry (suc n) i s =
    let e = entry i in
    let usable = record s { usable_regions = add_region s.usable_regions e.addr e.len } in
    let reserved = record s { reserved_regions = add_region s.reserved_regions e.addr e.len } in
    let noted =
      if e.type == 1 then usable else mark_range_mmio reserved e.addr (add64 e.addr e.len) in
    note_regions entry n (suc i)
      (if not (e.len == 0) && leb e.addr (add64 e.addr e.len) then noted else s)

-- The second loop.
unfoldable pub free_regions : (ℕ → MmapEntry) → ℕ → ℕ → Pmm → Pmm
free_regions entry zero i s = s
free_regions entry (suc n) i s =
    let e = entry i in
    let freed = mark_range_free s e.addr (add64 e.addr e.len) in
    free_regions entry n (suc i)
      (if (e.type == 1) && not (e.len == 0) && leb e.addr (add64 e.addr e.len) then freed else s)

-- The number of entries: those in the tag behind its header of 16 bytes, at most 4096.
unfoldable pub max_entries : ℕ → ℕ → ℕ
max_entries mmap_size entry_size =
    let n = (mmap_size - 16) / entry_size in if ltb 4096 n then 4096 else n

-- The pages that a bitmap of at most PMM_BITMAP_MAX_SIZE can describe.
unfoldable pub capped_end : ℕ → ℕ → ℕ
capped_end from to =
    if ltb bitmap_max_size (bitmap_bytes (sub64 to from / page_size))
    then add64 from (bitmap_max_size * 8 * page_size)
    else to

-- pmm_init_from_mmap up to its loops: all pages are used.
unfoldable pub start_used : Pmm → ℕ → ℕ → ℕ → Pmm
start_used s from to bitmap_phys =
    let total = sub64 to from / page_size in
    let size = bitmap_bytes total in
    setup_page_descs
      (clear_zones
        (record (bitmap_set_all (record s {
          total_pages = total;
          free_pages = 0;
          used_pages = total;
          bitmap_size = size;
          memory_start = from;
          memory_end = to;
        })) { usable_regions = []; reserved_regions = [] }))
      from to bitmap_phys size

-- pmm_init_from_mmap after its loops: the bitmap and the descriptors stay reserved.
unfoldable pub reserve_metadata : Pmm → ℕ → Pmm
reserve_metadata s bitmap_phys =
    let s1 = mark_range_used s bitmap_phys (add64 bitmap_phys s.bitmap_size) in
    let s2 = record s1 {
      reserved_regions = add_region s1.reserved_regions bitmap_phys s.bitmap_size;
    } in
    let at = desc_phys bitmap_phys s2.bitmap_size in
    let size = s2.pages_count * 16 % word in
    let s3 = mark_range_used s2 at (add64 at size) in
    if ltb 0 s2.pages_count
    then record s3 { reserved_regions = add_region s3.reserved_regions at size }
    else s2

-- pmm_init_from_mmap; `entry` is the memory map behind `mmap_tag`, an entry per `entry_size` bytes.
unfoldable pub init_from_mmap : Pmm → ℕ → ℕ → ℕ → ℕ → ℕ → (ℕ → MmapEntry) → ℕ → ℕ → Status × Pmm
init_from_mmap s memory_start memory_end bitmap_virt bitmap_phys mmap_tag entry mmap_size
      entry_size =
    let from = page_up memory_start in
    let s1 = start_used s from (capped_end from (page_down memory_end)) bitmap_phys in
    let n = max_entries mmap_size entry_size in
    let noted = note_regions entry n 0 s1 in
    let s2 = if ltb 0 s1.pages_count then count_used noted.pages_count 0 noted else s1 in
    if (bitmap_virt == 0) || (mmap_tag == 0) || leb memory_end memory_start || (entry_size == 0)
    then (invalid, s)
    else if leb mmap_size 16
    then (invalid, s1)
    else (ok, rebuild_free_lists (reserve_metadata (free_regions entry n 0 s2) bitmap_phys))
