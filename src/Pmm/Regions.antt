-- ===== src/Pmm/Regions.antt =====
-- kernel/arch/x86_64/pmm.c: the lists of regions and the statistics that callers ask for.
use rodnix.Prelude.{
  ℕ, ◌*◌, ◌%◌, ◌^◌, Bool, not, ◌||◌, Option, some, none, List, [], ◌==◌, ltb, leb, if◌then◌else◌,
  take, length, map, Status, ok, invalid,
}
use rodnix.Pmm.State.{Range, Region, Zone, Pmm, page_size, zone_count}
use rodnix.Pmm.Bits.{index_to_page}

-- A copy of at most `max` entries of a table, and their number; without a buffer, the number of
-- all of them.
unfoldable pub copy_regions : List Region → Bool → ℕ → List Region × ℕ
copy_regions rs has_out max =
    let n = length rs in
    let count = if ltb n max then n else max in
    if not has_out || (max == 0) then ([], n) else (take count rs, count)

-- pmm_get_free_regions, for a buffer and a counter that may be NULL.
unfoldable pub get_free_regions : Pmm → ℕ → Bool → ℕ → Bool → Status × List Region × ℕ
get_free_regions s z has_out max has_count =
    let bytes =
      map
        (λ (r : Range). record {
          base = index_to_page s r.start;
          length = r.count * page_size % 2 ^ 64;
        })
        (s.zone z).free_ranges in
    if not has_count || leb zone_count z
    then (invalid, [], 0)
    else let (rs, n) = copy_regions bytes has_out max in (ok, rs, n)

-- pmm_get_usable_regions and pmm_get_reserved_regions.
unfoldable pub get_usable_regions : Pmm → Bool → ℕ → Bool → Status × List Region × ℕ
get_usable_regions s has_out max has_count =
    let (rs, n) = copy_regions s.usable_regions has_out max in
    if has_count then (ok, rs, n) else (invalid, [], 0)

unfoldable pub get_reserved_regions : Pmm → Bool → ℕ → Bool → Status × List Region × ℕ
get_reserved_regions s has_out max has_count =
    let (rs, n) = copy_regions s.reserved_regions has_out max in
    if has_count then (ok, rs, n) else (invalid, [], 0)

-- pmm_get_zone_stats, for a result that may be NULL.
unfoldable pub get_zone_stats : Pmm → ℕ → Bool → Option Zone
get_zone_stats s z has_out = if not has_out || leb zone_count z then none else some (s.zone z)
