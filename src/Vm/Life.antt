-- ===== src/Vm/Life.antt =====
-- kernel/vm/vm_map.c: the maps of a task over exec, fork and exit.
use Prim.Native.Nat.{bit_or}
use rodnix.Prelude.{
  ℕ, zero, suc, ◌+◌, ◌-◌, Bool, true, false, ◌||◌, ◌&&◌, Option, none, some, List, [], ◌∷◌, ◌^◌,
  leb, ◌==◌, if◌then◌else◌, length, Status, ok, generic, invalid, nomem, busy, is_ok,
}
use rodnix.Vm.Machine.{Machine}
use rodnix.Vm.PageRef.{Refs, retain}
use rodnix.Vm.Range.{page_size, align_down, default_mmap}
use rodnix.Vm.Object.{Objects, ref, unref}
use rodnix.Vm.Map.{
  Entry, VmMap, remove, has_bit, max_entries, map_private, map_cow, prot_write, prot_exec,
  page_rounds,
}
use rodnix.Vm.Task.{Task}

-- The bits are PTE_PRESENT | PTE_USER = 5, PTE_RW = 2 and PTE_NX = 2 ^ 63.
-- vm_pte_flags_from_prot.
unfoldable pub pte_flags_from_prot : ℕ → ℕ
pte_flags_from_prot prot =
    let base : ℕ = 5 in
    let rw = if has_bit prot prot_write then bit_or base 2 else base in
    if has_bit prot prot_exec then rw else bit_or rw (2 ^ 63)

-- vm_entry_is_cow_candidate.
unfoldable pub is_cow_candidate : Entry → Bool
is_cow_candidate e = has_bit e.prot prot_write && has_bit e.flags map_private

-- `eff_prot &= ~VM_PROT_WRITE`.
abbrev pub without_write : ℕ → ℕ
without_write prot = if has_bit prot prot_write then prot - prot_write else prot

-- The flags of an entry after the fork, in the parent and in the child.
unfoldable pub mark_cow : Entry → Entry
mark_cow e = if is_cow_candidate e then record e { flags = bit_or e.flags map_cow } else e

-- The loop of vm_task_fork_clone: both tables, and the status with which it stopped.
pub record Clone (m : Machine) : Type 0 where
  pub memory : Objects m
  pub parent : List Entry
  pub child : List Entry
  pub status : Status

module _ (m : Machine) where
  -- vm_map_destroy.
  drop_entries : List Entry → Objects m → Objects m
  drop_entries [] k = k
  drop_entries (e ∷ es) k = drop_entries es (unref m k e.object)

  unfoldable pub map_destroy : ℕ → List Entry → Objects m → Objects m
  unfolding drop_entries
  map_destroy addr es k =
      let k' = drop_entries es k in
      record k' { refs = record (k'.refs) { hw = m.kfree k'.refs.hw addr } }

  -- vm_map_create, up to the fields that the caller fills; 5136 is sizeof(vm_map_t).
  unfoldable pub map_alloc : Objects m → ℕ × Objects m
  map_alloc k =
      let (addr, hw) = m.kmalloc k.refs.hw 5136 in
      (addr, record k { refs = record (k.refs) { hw = hw } })

  abbrev destroy_old : Option VmMap → Objects m → Objects m
  destroy_old none k = k
  destroy_old (some map) k = map_destroy map.addr map.entries k

  -- vm_task_prepare_exec.
  unfoldable pub prepare_exec : Task → Objects m → ℕ → Status × Task × Objects m
  unfolding map_destroy map_alloc
  prepare_exec t k user_pml4 =
      let (addr, k') = map_alloc (destroy_old t.vm_map k) in
      let fresh : VmMap = record { addr = addr; pml4_phys = user_pml4; entries = [] } in
      if user_pml4 == 0
      then (invalid, t, k)
      else if addr == 0
      then (nomem, record t { vm_map = none }, k')
      else (
        ok,
        record t {
          vm_map = some fresh;
          brk_base = 0;
          brk_end = 0;
          mmap_base = default_mmap;
          mmap_hint = default_mmap;
        },
        k',
      )

  -- The page loop of vm_task_fork_clone: it stops at the first page that the child cannot map.
  unfoldable pub clone_pages : Bool → ℕ → ℕ → ℕ → ℕ → ℕ → Refs m → Bool × Refs m
  clone_pages cow prot parent_pml4 child_pml4 va zero r = (true, r)
  clone_pages cow prot parent_pml4 child_pml4 va (suc n) r =
      let phys = align_down (m.get_physical_current r.hw va) in
      let flags = pte_flags_from_prot (if cow then without_write prot else prot) in
      let (rc, hw1) = m.map_page r.hw child_pml4 va phys flags in
      let r1 = (retain m (record r { hw = hw1 }) phys).1 in
      let (_, hw2) = m.map_page r1.hw parent_pml4 va phys flags in
      let r2 = if cow then record r1 { hw = hw2 } else r1 in
      let skipped = clone_pages cow prot parent_pml4 child_pml4 (va + page_size) n r in
      let copied = clone_pages cow prot parent_pml4 child_pml4 (va + page_size) n r2 in
      if phys == 0 then skipped else if is_ok rc then copied else (false, record r { hw = hw1 })

  -- `count` is the entry count of the child.
  unfoldable pub clone_entries : ℕ → ℕ → ℕ → List Entry → Objects m → Clone m
  clone_entries parent_pml4 child_pml4 count [] k = record {
    memory = k;
    parent = [];
    child = [];
    status = ok;
  }
  clone_entries parent_pml4 child_pml4 count (pe ∷ rest) k =
      let k1 = ref m k pe.object in
      let marked = mark_cow pe in
      let (mapped, refs') =
        clone_pages (is_cow_candidate pe) pe.prot parent_pml4 child_pml4 pe.start
          (page_rounds pe.start pe.end) k1.refs in
      let k2 = record k1 { refs = refs' } in
      let r = clone_entries parent_pml4 child_pml4 (count + 1) rest k2 in
      if leb max_entries count
      then record { memory = k; parent = pe ∷ rest; child = []; status = busy }
      else if mapped
      then record r { parent = marked ∷ r.parent; child = marked ∷ r.child }
      else record { memory = k2; parent = marked ∷ rest; child = marked ∷ []; status = generic }

  -- vm_task_fork_clone: the status, the parent and the child.
  unfoldable pub fork_clone : Task → Task → Objects m → ℕ → Status × Task × Task × Objects m
  unfolding map_destroy map_alloc
  fork_clone parent child k child_pml4 = elim parent.vm_map [
    | none ↦ (invalid, parent, child, k)
    | some pmap ↦
        let (addr, k1) = map_alloc k in
        let c = clone_entries parent.address_space child_pml4 0 pmap.entries k1 in
        let parent' = record parent { vm_map = some (record pmap { entries = c.parent }) } in
        let cmap : VmMap = record { addr = addr; pml4_phys = child_pml4; entries = c.child } in
        if (parent.address_space == 0) || (child_pml4 == 0)
        then (invalid, parent, child, k)
        else if addr == 0
        then (nomem, parent, child, k1)
        else if is_ok c.status
        then (
          ok,
          parent',
          record child {
            vm_map = some cmap;
            brk_base = parent.brk_base;
            brk_end = parent.brk_end;
            mmap_base = parent.mmap_base;
            mmap_hint = parent.mmap_hint;
          },
          c.memory,
        )
        else (c.status, parent', child, map_destroy addr c.child c.memory)
  ]

  -- `while (map->entry_count > 0)` of vm_task_destroy, with the rounds that are left.
  unfoldable pub drain : ℕ → VmMap → Objects m → ℕ → VmMap × Objects m
  drain zero map k pml4 = (map, k)
  drain (suc n) map k pml4 = elim map.entries [
    | [] ↦ (map, k)
    | e ∷ _ ↦
        let (_, map', k') = remove m map k e.start (e.end - e.start) pml4 in drain n map' k' pml4
  ]

  -- vm_task_destroy.
  unfoldable pub task_destroy : Task → Objects m → Task × Objects m
  unfolding map_destroy
  task_destroy t k =
      let cleared = record t {
        vm_map = none;
        brk_base = 0;
        brk_end = 0;
        mmap_base = 0;
        mmap_hint = 0;
      } in
      elim t.vm_map [
        | none ↦ (cleared, k)
        | some map ↦
            let (map', k') = drain (length map.entries) map k t.address_space in
            (cleared, map_destroy map'.addr map'.entries k')
      ]
