-- ===== src/Tests/Vm/Cow.antt =====
-- Copy on write, page references and the full table on concrete inputs.
use rodnix.Prelude.{
  ℕ, Status, zero, suc, ◌+◌, ◌*◌, ◌≡◌, ◌≢◌, ◌≤◌, ◌⊎◌, refl, true, false, some, none, List, [], ◌∷◌,
  length, arith, inl, inr, ok, busy, ◌==◌, if◌then◌else◌, Bool-cases, ◌&&◌,
}
use rodnix.Vm.PageRef.{Refs, release, drop_ref}
use rodnix.Vm.Object.{Objects, VmObject, anon, ref}
use rodnix.Vm.Map.{Entry, VmMap, remove, remove_from, cut, unmap_cut, lookup, has_bit}
use rodnix.Vm.Task.{Task}
use rodnix.Vm.Life.{
  fork_clone, clone_entries, clone_pages, is_cow_candidate, mark_cow, map_alloc,
  pte_flags_from_prot,
}
use rodnix.Vm.Cow.{clone_pages-read_only, pte_rw}
use rodnix.Vm.Sharing.{fork_clone-shares}
use rodnix.Vm.Fault.{fault_handle, access_denied}
use rodnix.Vm.Remove.{IsMap, remove-busy}
use rodnix.Vm.Table.{IsTable, Apart}
use rodnix.Tests.Machine.{Pte, Toy, toy, forget, enter_pte}

-- No writable page in the address space 0x6000.
abbrev ReadOnly : List Pte → Type 0
ReadOnly [] = Unit {0}
ReadOnly (p ∷ ps) = ((p.pml4 ≢ 0x6000) ⊎ (has_bit p.flags pte_rw ≡ false)) × ReadOnly ps

forget-ReadOnly : (ps : List Pte) (pml4 va : ℕ) → ReadOnly ps → ReadOnly (forget ps pml4 va)
forget-ReadOnly [] pml4 va h = tt
forget-ReadOnly (p ∷ ps) pml4 va h =
    let ih = forget-ReadOnly ps pml4 va (h.1) in
    elim (Bool-cases ((p.pml4 == pml4) && (p.va == va))) [
      | inl b ↦ rw b ih
      | inr b ↦ rw b (h.0, ih)
    ]

abbrev page : Pte
page = record { pml4 = 0x5000; va = 0x40_1000; phys = 0x10_0000; flags = 7 }

abbrev refs : Refs toy
refs = record {
  hw = record { next = 7; ptes = page ∷ [] };
  nodes = record { addr = 0x8000; phys = 0x10_0000; refs = 1 } ∷ [];
}

clone_pages-read_only_example :
    ReadOnly (clone_pages toy true 3 0x5000 0x6000 0x40_0000 4 refs).1.hw.ptes
clone_pages-read_only_example =
    clone_pages-read_only toy (λ hw. ReadOnly hw.ptes) 3 0x5000 0x6000 0x40_0000 4 refs
      (λ hw pml4 at phys flags ro h. (inr ro, forget-ReadOnly hw.ptes pml4 at h)) (λ hw size h. h)
      (omega arith)

-- A private writable mapping of two pages with an object, which nobody has touched; the parent
-- forks, and both then write to the second page.
abbrev heap_object : VmObject
heap_object = record {
  type = anon;
  ref_count = 2;
  size = 0x2000;
  page_count = 2;
  pages_addr = 0xA000;
  resident_pages = 0 ∷ 0 ∷ [];
  pager_private = none;
}

abbrev private_entry : Entry
private_entry = record {
  start = 0x6000_0000;
  end = 0x6000_2000;
  prot = 3;
  flags = 11;
  object = 0xB000;
  object_offset = 0;
}

abbrev private_map : VmMap
private_map = record { addr = 0x9000; pml4_phys = 0x5000; entries = private_entry ∷ [] }

abbrev parent : Task
parent = record {
  vm_map = some private_map;
  address_space = 0x5000;
  brk_base = 0;
  brk_end = 0;
  mmap_base = 0x6000_0000;
  mmap_hint = 0x6000_0000;
}

abbrev child : Task
child = record parent { vm_map = none; address_space = 0x6000 }

abbrev cow_memory : Objects toy
cow_memory = record {
  refs = record { hw = record { next = 7; ptes = [] }; nodes = [] };
  object = λ p. if p == 0xB000 then some heap_object else none;
}

forks : (fork_clone toy parent child cow_memory 0x6000).0 ≡ ok
unfolding fork_clone clone_entries clone_pages is_cow_candidate mark_cow map_alloc
    pte_flags_from_prot ref
forks = refl

fork_clone-shares_example :
    let (_, parent', child', _) = fork_clone toy parent child cow_memory 0x6000 in
    let flags = pte_flags_from_prot 3 in
    let (rc1, k1) = fault_handle toy parent' cow_memory 0x6000_1234 6 in
    let switched : Toy = record { next = 20; ptes = [] } in
    let later : Objects toy = record k1 { refs = record (k1.refs) { hw = switched } } in
    let (rc2, k2) = fault_handle toy child' later 0x6000_1234 6 in
    (h1 : Toy) × (h2 : Toy) × (◌≡◌ {A = Status × Toy}
      (rc1, k1.refs.hw)
      (ok, enter_pte h1 0x5000 0x6000_1000 0x10_7000 flags))
    × (◌≡◌ {A = Status × Toy}
        (rc2, k2.refs.hw)
        (ok, enter_pte h2 0x6000 0x6000_1000 0x10_7000 flags))
    × (has_bit flags pte_rw ≡ true)
fork_clone-shares_example =
    fork_clone-shares toy parent child private_map cow_memory 0x6000 cow_memory
      (record { next = 20; ptes = [] }) 0x6000_1234 6 private_entry heap_object refl forks
      (omega arith) (unfold lookup in refl)
      (record {
        user = refl;
        write = refl;
        low = omega arith;
        high = omega arith;
        allowed = unfold access_denied in refl;
      })
      (omega arith) refl (record { within = omega arith; array = refl; absent = refl })
      (omega arith) refl refl

release_status : (release toy refs 0x10_0000).0 ≡ ok
unfolding release drop_ref
release_status = refl

-- A table of `n` entries of three pages each, the highest first.
abbrev row : ℕ → Entry
row n = record {
  start = n * 0x4000 + 0x1000;
  end = n * 0x4000 + 0x4000;
  prot = 3;
  flags = 3;
  object = 0;
  object_offset = 0;
}

rows : ℕ → List Entry
rows zero = []
rows (suc n) = row n ∷ rows n

Apart-rows : (x : Entry) (n : ℕ) → n * 0x4000 ≤ x.start → Apart x (rows n)
unfolding rows
Apart-rows x zero h = tt
Apart-rows x (suc n) h = (inr (omega arith), Apart-rows x n (omega arith))

rows-IsTable : (n : ℕ) → n ≤ 128 → IsTable (rows n)
unfolding rows
rows-IsTable zero h = tt
rows-IsTable (suc n) h =
    (omega arith, Apart-rows (row n) n (omega arith), rows-IsTable n (omega arith))

length-rows : (n : ℕ) → length (rows n) ≡ n
unfolding rows
length-rows zero = refl
length-rows (suc n) = omega (arith, length-rows n)

abbrev full_map : VmMap
full_map = record { addr = 0x9000; pml4_phys = 0x5000; entries = rows 128 }

full_valid : IsMap full_map.entries
full_valid = record {
  table = rows-IsTable 128 (omega arith);
  room = omega (arith, length-rows 128);
}

busy_status : (remove toy full_map cow_memory 0x1F_E000 0x1000 0x5000).0 ≡ busy
unfolding remove remove_from cut unmap_cut rows
busy_status = refl

remove-busy_example :
    ((remove toy full_map cow_memory 0x1F_E000 0x1000 0x5000).1.entries ≡ full_map.entries)
    × (length full_map.entries ≡ 128)
    × ((remove toy full_map cow_memory 0x1F_E000 0x1000 0x5000).2
        ≡ unmap_cut toy true 0x5000 0x1F_E000 0x1F_F000 cow_memory)
remove-busy_example =
    remove-busy toy full_map cow_memory 0x1F_E000 0x1000 0x5000 full_valid busy_status
