-- ===== src/Vm/Protect.antt =====
-- kernel/vm/vm_map.c: vm_task_mprotect and vm_task_msync, the loops over the entries that meet
-- a range.
use rodnix.Prelude.{
  ℕ, zero, suc, ◌+◌, ◌-◌, ◌/◌, Bool, true, false, ◌||◌, not, Option, none, some, List, [], ◌∷◌,
  add64, leb, ltb, ◌==◌, if◌then◌else◌, Status, ok, invalid, unsupported, notfound,
}
use rodnix.Vm.Machine.{Machine}
use rodnix.Vm.Range.{page_size, align_down, align_up}
use rodnix.Vm.Object.{Objects, FileBacking, anon, file, get_resident_page}
use rodnix.Vm.Map.{Entry, has_bit, map_private, cut_start, cut_end, page_rounds}
use rodnix.Vm.Life.{pte_flags_from_prot}
use rodnix.Vm.Task.{Task}

-- What the loop of vm_task_mprotect has done when it stops; `partial` if it met an entry that
-- the range covers only in part.
pub record Protection (m : Machine) : Type 0 where
  pub hw : m.State
  pub entries : List Entry
  pub changed : Bool
  pub partial : Bool

module _ (m : Machine) where
  open m use {State}

  -- `for (va = rs; va < re; va += VM_PAGE_SIZE)` of vm_task_mprotect.
  unfoldable pub remap_pages : ℕ → ℕ → ℕ → ℕ → State → State
  remap_pages pml4 pte_flags va zero hw = hw
  remap_pages pml4 pte_flags va (suc n) hw =
      let phys = align_down (m.get_physical hw pml4 va) in
      remap_pages pml4 pte_flags (va + page_size) n
        (if phys == 0 then hw else (m.map_page hw pml4 va phys pte_flags).1)

  unfoldable pub protect_from : ℕ → ℕ → ℕ → ℕ → State → List Entry → Protection m
  protect_from pml4 s e prot hw [] = record {
    hw = hw;
    entries = [];
    changed = false;
    partial = false;
  }
  protect_from pml4 s e prot hw (me ∷ rest) =
      let rs = cut_start s me in
      let re = cut_end e me in
      let hw' = remap_pages pml4 (pte_flags_from_prot prot) rs (page_rounds rs re) hw in
      let skipped = protect_from pml4 s e prot hw rest in
      let later = protect_from pml4 s e prot hw' rest in
      if leb re rs
      then record skipped { entries = me ∷ skipped.entries }
      else if not (rs == me.start) || not (re == me.end)
      then record { hw = hw; entries = me ∷ rest; changed = false; partial = true }
      else record later { entries = record me { prot = prot } ∷ later.entries; changed = true }

  -- vm_task_mprotect.
  unfoldable pub mprotect : Task → Objects m → ℕ → ℕ → ℕ → Status × Task × Objects m
  mprotect t k addr len prot = elim t.vm_map [
    | none ↦ (invalid, t, k)
    | some map ↦
        let s = align_down addr in
        let e = align_up (add64 addr len) in
        let p = protect_from t.address_space s e prot k.refs.hw map.entries in
        if (t.address_space == 0) || (len == 0) || (prot == 0) || leb e s
        then (invalid, t, k)
        else (
          (if p.partial then unsupported else if p.changed then ok else notfound),
          record t { vm_map = some (record map { entries = p.entries }) },
          record k { refs = record (k.refs) { hw = p.hw } },
        )
  ]

  -- One round of the page loop of vm_task_msync, with the flag `did`.
  sync_page : Objects m → Entry → FileBacking → ℕ → Bool × State → Bool × State
  sync_page k me fb va (did, hw) =
      let rel = add64 me.object_offset (va - me.start) in
      let phys = get_resident_page m k me.object (rel / page_size) in
      let off = add64 (add64 fb.file_offset me.object_offset) (va - me.start) in
      let avail = fb.size - off in
      if phys == 0 then (did, hw) else if leb fb.size off then (did, hw) else (
        true,
        m.store_bytes hw (fb.bytes + off) phys (if ltb page_size avail then page_size else avail),
      )

  sync_pages : Objects m → Entry → FileBacking → ℕ → ℕ → Bool × State → Bool × State
  sync_pages k me fb va zero d = d
  sync_pages k me fb va (suc n) d = sync_pages k me fb (va + page_size) n (sync_page k me fb va d)

  -- The backing that vm_task_msync writes to, if the entry is a shared mapping of a file.
  sync_backing : Objects m → Entry → Option FileBacking
  sync_backing k me = elim (k.object me.object) [
    | none ↦ none
    | some o ↦ elim o.type [
      | anon ↦ none
      | file ↦ elim o.pager_private [
        | none ↦ none
        | some fb ↦
            if (me.object == 0) || has_bit me.flags map_private || (fb.bytes == 0) || (fb.size == 0)
            then none
            else some fb
      ]
    ]
  ]

  sync_from : Objects m → ℕ → ℕ → List Entry → Bool × State → Bool × State
  sync_from k s e [] d = d
  sync_from k s e (me ∷ rest) d =
      let rs = cut_start s me in
      let re = cut_end e me in
      let d' : Bool × State = elim (sync_backing k me) [
        | none ↦ d
        | some fb ↦ sync_pages k me fb rs (page_rounds rs re) d
      ] in
      sync_from k s e rest (if leb re rs then d else d')

  -- vm_task_msync; its `flags` are ignored.
  unfoldable pub msync : Task → Objects m → ℕ → ℕ → Status × Objects m
  unfolding sync_page sync_pages sync_backing sync_from
  msync t k addr len = elim t.vm_map [
    | none ↦ (invalid, k)
    | some map ↦
        let s = align_down addr in
        let e = align_up (add64 addr len) in
        let (did, hw) = sync_from k s e map.entries (false, k.refs.hw) in
        if (len == 0) || leb e s
        then (invalid, k)
        else ((if did then ok else notfound), record k { refs = record (k.refs) { hw = hw } })
  ]
