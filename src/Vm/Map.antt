-- ===== src/Vm/Map.antt =====
-- kernel/vm/vm_map.c: the map of a user address space, a table of at most 128 entries.
-- `entries[0 .. entry_count)` is a list, so `entry_count` is its length. `object` is the address
-- of a memory object, 0 for none.
use rodnix.Prelude.{
  ℕ, zero, suc, ◌+◌, ◌-◌, ◌/◌, ◌%◌, Bool, true, false, ◌||◌, ◌&&◌, not, Option, none, some, List,
  [], ◌∷◌, ◌++◌, ltb, leb, ◌==◌, if◌then◌else◌, add64, length, Status, ok, invalid, busy, notfound,
}
use rodnix.Vm.Machine.{Machine}
use rodnix.Vm.PageRef.{Refs, release}
use rodnix.Vm.Range.{page_size, align_down, align_up, range_valid}
use rodnix.Vm.Object.{Objects, ref, unref}

-- `vm_map_entry_t`.
pub record Entry : Type 0 where
  pub start : ℕ
  pub end : ℕ
  pub prot : ℕ
  pub flags : ℕ
  pub object : ℕ
  pub object_offset : ℕ

-- `vm_map_t`; `addr` is its own address.
pub record VmMap : Type 0 where
  pub addr : ℕ
  pub pml4_phys : ℕ
  pub entries : List Entry

abbrev pub max_entries : ℕ
max_entries = 128

abbrev pub prot_read : ℕ
prot_read = 1

abbrev pub prot_write : ℕ
prot_write = 2

abbrev pub prot_exec : ℕ
prot_exec = 4

abbrev pub map_anon : ℕ
map_anon = 1

abbrev pub map_private : ℕ
map_private = 2

abbrev pub map_fixed : ℕ
map_fixed = 4

abbrev pub map_lazy : ℕ
map_lazy = 8

abbrev pub map_cow : ℕ
map_cow = 32

-- The test `v & bit` for a single bit.
abbrev pub has_bit : ℕ → ℕ → Bool
has_bit v bit = (v / bit) % 2 == 1

-- vm_map_overlap.
unfoldable pub overlaps : List Entry → ℕ → ℕ → Bool
overlaps [] start end = false
overlaps (e ∷ es) start end =
    let rest = overlaps es start end in if leb end e.start || leb e.end start then rest else true

-- vm_map_lookup. The address of the entry found stands for the entry.
unfoldable pub lookup : List Entry → ℕ → Option Entry
lookup [] addr = none
lookup (e ∷ es) addr =
    let rest = lookup es addr in if leb e.start addr && ltb addr e.end then some e else rest

-- The five ways in which the loop of vm_map_remove meets an entry.
pub data Cut : Type 0 where
  miss whole front back middle : Cut

abbrev pub cut_start : ℕ → Entry → ℕ
cut_start s cur = if ltb cur.start s then s else cur.start

abbrev pub cut_end : ℕ → Entry → ℕ
cut_end e cur = if ltb e cur.end then e else cur.end

unfoldable pub cut : ℕ → ℕ → Entry → Cut
cut s e cur =
    let rs = cut_start s cur in
    let re = cut_end e cur in
    if leb re rs
    then miss
    else if (rs == cur.start) && (re == cur.end)
    then whole
    else if rs == cur.start
    then front
    else if re == cur.end
    then back
    else middle

-- The rounds of `for (va = rs; va < re; va += VM_PAGE_SIZE)`.
abbrev pub page_rounds : ℕ → ℕ → ℕ
page_rounds rs re = (re - rs + (page_size - 1)) / page_size

-- What vm_map_remove has done when it stops; `full` if it gave up on a full table.
pub record Removal (m : Machine) : Type 0 where
  pub memory : Objects m
  pub entries : List Entry
  pub removed : Bool
  pub full : Bool

module _ (m : Machine) where
  unfoldable pub add : VmMap → Objects m → ℕ → ℕ → ℕ → ℕ → ℕ → ℕ → Status × VmMap × Objects m
  add map k start len prot flags obj object_offset =
      let s = align_down start in
      let e = align_up (add64 start len) in
      let ne : Entry = record {
        start = s;
        end = e;
        prot = prot;
        flags = flags;
        object = obj;
        object_offset = object_offset;
      } in
      if (len == 0) || not (range_valid s e)
      then (invalid, map, k)
      else if leb max_entries (length map.entries)
      then (busy, map, k)
      else if overlaps map.entries s e
      then (busy, map, k)
      else (ok, record map { entries = map.entries ++ ne ∷ [] }, ref m k obj)

  -- The unmapping of the pages from `va` on, each with the drop of the mapping's reference.
  unmap_pages : ℕ → ℕ → ℕ → Refs m → Refs m
  unmap_pages pml4 va zero r = r
  unmap_pages pml4 va (suc n) r =
      let phys = align_down (m.get_physical r.hw pml4 va) in
      unmap_pages pml4 (va + page_size) n
        (if phys == 0 then r else (release m (record r { hw = m.unmap_page r.hw pml4 va }) phys).1)

  unfoldable pub unmap_cut : Bool → ℕ → ℕ → ℕ → Objects m → Objects m
  unfolding unmap_pages
  unmap_cut mapped pml4 rs re k =
      if mapped then record k { refs = unmap_pages pml4 rs (page_rounds rs re) k.refs } else k

  -- The loop of vm_map_remove over the entries from `i` on; `count` is `entry_count`, and
  -- `mapped` the test that the page tables are those of the map.
  unfoldable pub remove_from : Bool → ℕ → ℕ → ℕ → ℕ → Objects m → List Entry → Removal m
  remove_from mapped pml4 s e count k [] = record {
    memory = k;
    entries = [];
    removed = false;
    full = false;
  }
  remove_from mapped pml4 s e count k (cur ∷ rest) =
      let rs = cut_start s cur in
      let re = cut_end e cur in
      let k1 = unmap_cut mapped pml4 rs re k in
      let low : Entry = record cur { end = rs } in
      let high : Entry = record cur {
        start = re;
        object_offset = add64 cur.object_offset (re - cur.start);
      } in
      elim (cut s e cur) [
        | miss ↦
            let r = remove_from mapped pml4 s e count k rest in
            record r { entries = cur ∷ r.entries }
        | whole ↦
            let r = remove_from mapped pml4 s e (count - 1) (unref m k1 cur.object) rest in
            record r { removed = true }
        | front ↦
            let r = remove_from mapped pml4 s e count k1 rest in
            record r { entries = high ∷ r.entries; removed = true }
        | back ↦
            let r = remove_from mapped pml4 s e count k1 rest in
            record r { entries = low ∷ r.entries; removed = true }
        | middle ↦
            if leb max_entries count
            then record { memory = k1; entries = cur ∷ rest; removed = true; full = true }
            else let r = remove_from mapped pml4 s e (count + 1) (ref m k1 cur.object) rest in
              record r { entries = low ∷ high ∷ r.entries; removed = true }
      ]

  -- vm_map_remove.
  unfoldable pub remove : VmMap → Objects m → ℕ → ℕ → ℕ → Status × VmMap × Objects m
  remove map k start len pml4 =
      let s = align_down start in
      let e = align_up (add64 start len) in
      let r = remove_from (pml4 == map.pml4_phys) pml4 s e (length map.entries) k map.entries in
      if (len == 0) || leb e s then (invalid, map, k) else (
        (if r.full then busy else if r.removed then ok else notfound),
        record map { entries = r.entries },
        r.memory,
      )
