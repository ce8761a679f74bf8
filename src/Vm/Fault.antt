-- ===== src/Vm/Fault.antt =====
-- kernel/vm/vm_fault.c: demand paging and copy on write.
use rodnix.Prelude.{
  ℕ, ◌+◌, ◌-◌, ◌/◌, Bool, ◌||◌, ◌&&◌, not, none, some, add64, leb, ltb, ◌==◌, if◌then◌else◌, Status,
  ok, denied, nomem, notfound,
}
use rodnix.Vm.Machine.{Machine}
use rodnix.Vm.PageRef.{Refs, retain, release, alloc_zero_page}
use rodnix.Vm.Range.{page_size, align_down, kernel_virt_base}
use rodnix.Vm.Object.{Objects, anon, file, get_resident_page, set_resident_page}
use rodnix.Vm.Map.{Entry, has_bit, lookup, prot_read, prot_write, prot_exec, map_cow}
use rodnix.Vm.Life.{pte_flags_from_prot}
use rodnix.Vm.Task.{Task}

-- The access bits of the x86 error code: write, user mode and instruction fetch.
abbrev pub is_write : ℕ → Bool
is_write err_code = has_bit err_code 2

abbrev pub is_user : ℕ → Bool
is_user err_code = has_bit err_code 4

abbrev pub is_exec : ℕ → Bool
is_exec err_code = has_bit err_code 16

-- The three tests that refuse an access to an entry.
unfoldable pub access_denied : ℕ → ℕ → Bool
access_denied err_code prot =
    (is_exec err_code && not (has_bit prot prot_exec))
    || (is_write err_code && not (has_bit prot prot_write))
    || (not (is_write err_code)
        && not (is_exec err_code)
        && not (has_bit prot prot_read)
        && not (has_bit prot prot_write))

module _ (m : Machine) where
  -- The copy of a page that is mapped copy on write.
  copy_on_write : ℕ → Entry → ℕ → ℕ → Objects m → Status × Objects m
  copy_on_write pml4 e va current_phys k =
      let (new_phys, r) = alloc_zero_page m k.refs in
      let copied = m.copy_page r.hw new_phys current_phys in
      let (_, hw) = m.map_page copied pml4 va new_phys (pte_flags_from_prot e.prot) in
      if new_phys == 0
      then (nomem, record k { refs = r })
      else (ok, record k { refs = (release m (record r { hw = hw }) current_phys).1 })

  -- The bytes of a file that a fresh page shows.
  load_backing : Objects m → Entry → ℕ → ℕ → Refs m → Refs m
  load_backing k e va phys r = elim (k.object e.object) [
    | none ↦ r
    | some o ↦ elim o.type [
      | anon ↦ r
      | file ↦ elim o.pager_private [
        | none ↦ r
        | some fb ↦
            let off = add64 (add64 fb.file_offset e.object_offset) (va - e.start) in
            let avail = fb.size - off in
            let copy = if ltb page_size avail then page_size else avail in
            if (e.object == 0) || (fb.bytes == 0) || (fb.size == 0) || leb fb.size off
            then r
            else record r { hw = m.load_bytes r.hw phys (fb.bytes + off) copy }
      ]
    ]
  ]

  -- A fresh page for a fault, zeroed, loaded from the file and entered in the object.
  unfoldable pub fresh_page : Entry → ℕ → ℕ → Objects m → ℕ × Objects m
  unfolding load_backing
  fresh_page e va page_idx k =
      let (phys, r) = alloc_zero_page m k.refs in
      let k1 = record k { refs = load_backing k e va phys r } in
      if phys == 0
      then (0, record k { refs = r })
      else (phys, if e.object == 0 then k1 else (set_resident_page m k1 e.object page_idx phys).1)

  -- The branch for a page that is not mapped.
  demand_page : ℕ → Entry → ℕ → Objects m → Status × Objects m
  demand_page pml4 e va k =
      let page_idx = add64 e.object_offset (va - e.start) / page_size in
      let resident = get_resident_page m k e.object page_idx in
      let shared = record k { refs = (retain m k.refs resident).1 } in
      let (fresh, k1) = fresh_page e va page_idx k in
      let phys = if resident == 0 then fresh else resident in
      let k2 = if resident == 0 then k1 else shared in
      let (rc, hw) = m.map_page k2.refs.hw pml4 va phys (pte_flags_from_prot e.prot) in
      if phys == 0 then (nomem, k2) else (rc, record k2 { refs = record (k2.refs) { hw = hw } })

  -- The rest of the handler, once the entry is known.
  serve : Task → Entry → ℕ → ℕ → Objects m → Status × Objects m
  unfolding copy_on_write demand_page
  serve t e va err_code k =
      let current_phys = align_down (m.get_physical_current k.refs.hw va) in
      if access_denied err_code e.prot
      then (denied, k)
      else if not (current_phys == 0) && is_write err_code && has_bit e.flags map_cow
      then copy_on_write t.address_space e va current_phys k
      else if current_phys == 0
      then demand_page t.address_space e va k
      else (denied, k)

  -- vm_fault_handle; its `rip` is ignored.
  unfoldable pub fault_handle : Task → Objects m → ℕ → ℕ → Status × Objects m
  unfolding serve
  fault_handle t k fault_addr err_code = elim t.vm_map [
    | none ↦ (notfound, k)
    | some map ↦
        let va = align_down fault_addr in
        if t.address_space == 0
        then (notfound, k)
        else if not (is_user err_code)
        then (denied, k)
        else if ltb fault_addr 0x1000 || leb kernel_virt_base fault_addr
        then (denied, k)
        else elim (lookup map.entries va) [
          | none ↦ (notfound, k)
          | some e ↦ serve t e va err_code k
        ]
  ]
