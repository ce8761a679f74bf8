-- ===== src/Pmm/Ranges.antt =====
-- kernel/arch/x86_64/pmm.c: the free lists of the zones, as lists of ranges of pages.
use rodnix.Prelude.{
  ℕ, zero, suc, ◌-◌, Bool, true, false, ◌&&◌, ◌||◌, List, [], ◌∷◌, ◌++◌, ◌==◌, ltb, leb,
  if◌then◌else◌, add64, sub64, length,
}
use rodnix.Pmm.State.{Range, max_free_ranges}

-- pmm_freelist_append.
unfoldable pub freelist_append : List Range → ℕ → ℕ → List Range
freelist_append rs start count =
    if (count == 0) || leb max_free_ranges (length rs)
    then rs
    else rs ++ record { start = start; count = count } ∷ []

-- The search of pmm_freelist_insert for the place of a range.
unfoldable pub position : List Range → ℕ → ℕ
position [] start = 0
position (r ∷ rs) start = let rest = position rs start in if ltb r.start start then suc rest else 0

-- The shift of the ranges from a place on, and the write there.
unfoldable pub insert_at : List Range → ℕ → Range → List Range
insert_at rs zero r = r ∷ rs
insert_at [] (suc i) r = r ∷ []
insert_at (x ∷ rs) (suc i) r = x ∷ insert_at rs i r

-- Whether the range at a place ends where the next one starts.
unfoldable pub is_adjacent : List Range → ℕ → Bool
is_adjacent [] i = false
is_adjacent (x ∷ []) i = false
is_adjacent (x ∷ y ∷ rs) zero = add64 x.start x.count == y.start
is_adjacent (x ∷ y ∷ rs) (suc i) = is_adjacent (y ∷ rs) i

-- The merge of the range at a place with the next one, which is shifted away.
unfoldable pub join_at : List Range → ℕ → List Range
join_at [] i = []
join_at (x ∷ []) i = x ∷ []
join_at (x ∷ y ∷ rs) zero = record x { count = add64 x.count y.count } ∷ rs
join_at (x ∷ y ∷ rs) (suc i) = x ∷ join_at (y ∷ rs) i

-- The two merges of pmm_freelist_insert.
unfoldable pub merge_next : List Range → ℕ → List Range
merge_next rs pos = if is_adjacent rs pos then join_at rs pos else rs

unfoldable pub merge_around : List Range → ℕ → List Range
merge_around rs pos =
    if ltb 0 pos && is_adjacent rs (pos - 1)
    then merge_next (join_at rs (pos - 1)) (pos - 1)
    else merge_next rs pos

-- pmm_freelist_insert.
unfoldable pub freelist_insert : List Range → ℕ → ℕ → List Range
freelist_insert rs start count =
    let pos = position rs start in
    if count == 0
    then rs
    else if length rs == 0
    then freelist_append rs start count
    else if leb max_free_ranges (length rs)
    then rs
    else merge_around (insert_at rs pos (record { start = start; count = count })) pos

-- The test of pmm_freelist_remove: the pages lie in the range.
unfoldable pub holds : Range → ℕ → ℕ → Bool
holds r start count = leb r.start start && leb (add64 start count) (add64 r.start r.count)

-- What pmm_freelist_remove leaves of the range that holds the pages, followed by the ranges after
-- it; `room` is whether the table has an entry to spare.
unfoldable pub cut : Bool → Range → List Range → ℕ → ℕ → List Range
cut room r rs start count =
    let tail_start = add64 start count in
    let tail_count = sub64 (add64 r.start r.count) tail_start in
    let head_count = sub64 start r.start in
    let head = record r { count = head_count } in
    let tail : Range = record { start = tail_start; count = tail_count } in
    if ltb 0 head_count && ltb 0 tail_count
    then (if room then head ∷ tail ∷ rs else head ∷ rs)
    else if ltb 0 head_count
    then head ∷ rs
    else if ltb 0 tail_count
    then tail ∷ rs
    else rs

-- The loop of pmm_freelist_remove.
unfoldable pub remove_from : Bool → List Range → ℕ → ℕ → Bool × List Range
remove_from room [] start count = (false, [])
remove_from room (r ∷ rs) start count =
    let (removed, rest) = remove_from room rs start count in
    if holds r start count then (true, cut room r rs start count) else (removed, r ∷ rest)

-- pmm_freelist_remove.
unfoldable pub freelist_remove : List Range → ℕ → ℕ → Bool × List Range
freelist_remove rs start count =
    if count == 0 then (false, rs) else remove_from (ltb (length rs) max_free_ranges) rs start count
