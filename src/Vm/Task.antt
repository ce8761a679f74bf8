-- ===== src/Vm/Task.antt =====
-- kernel/vm/vm_map.c: the calls on a task's address space. `vm_map` is none for NULL, and
-- `address_space` the task's page table root. The task pointer itself is never NULL here.
use Prim.Native.Nat.{bit_or}
use rodnix.Prelude.{
  ℕ, ◌-◌, ◌||◌, Option, none, some, ltb, ◌==◌, if◌then◌else◌, add64, Status, ok, invalid, nomem,
  is_ok, Result, done, fail,
}
use rodnix.Vm.Machine.{Machine}
use rodnix.Vm.Range.{align_down, align_up}
use rodnix.Vm.Object.{Objects, anon, file, FileBacking, update, create, unref}
use rodnix.Vm.Map.{
  VmMap, add, remove, has_bit, map_fixed, map_lazy, map_anon, map_private, prot_read, prot_write,
}
use rodnix.Vm.Gap.{find_gap}

-- The fields of `task_t` that kernel/vm uses.
pub record Task : Type 0 where
  pub vm_map : Option VmMap
  pub address_space : ℕ
  pub brk_base : ℕ
  pub brk_end : ℕ
  pub mmap_base : ℕ
  pub mmap_hint : ℕ

module _ (m : Machine) where
  -- A call's reply, the task and the memory after it.
  abbrev pub Outcome : Type 0 → Type 0
  Outcome A = A × Task × Objects m

  unfoldable pub map_fixed_at : Task → Objects m → ℕ → ℕ → ℕ → ℕ → Outcome Status
  map_fixed_at t k start len prot flags = elim t.vm_map [
    | none ↦ (invalid, t, k)
    | some map ↦
        let (rc, map', k') = add m map k start len prot (bit_or flags map_fixed) 0 0 in
        (rc, record t { vm_map = some map' }, k')
  ]

  unfoldable pub set_brk_base : Task → ℕ → Status × Task
  set_brk_base t brk_base =
      let b = align_up brk_base in (ok, record t { brk_base = b; brk_end = b })

  -- Where an mmap call puts its mapping: with MAP_FIXED at the hint, which is cleared first.
  unfoldable pub place : Task → VmMap → Objects m → ℕ → ℕ → ℕ → ℕ × VmMap × Objects m
  place t map k addr_hint alen flags =
      let addr = align_down addr_hint in
      let (_, map', k') = remove m map k addr alen t.address_space in
      let hint = if addr_hint == 0 then t.mmap_hint else addr_hint in
      if has_bit flags map_fixed then (addr, map', k') else (find_gap map.entries hint alen, map, k)

  -- The end of an mmap call: the entry, the reply and the next hint.
  unfoldable pub enter : Task → VmMap → Objects m → ℕ → ℕ → ℕ → ℕ → ℕ → ℕ → Outcome (Result ℕ)
  enter t map k addr alen prot flags obj object_offset =
      let (rc, map', k') = add m map k addr alen prot flags obj object_offset in
      let t' = record t { vm_map = some map' } in
      if is_ok rc
      then (done addr, record t' { mmap_hint = add64 addr alen }, k')
      else (fail rc, t', k')

  -- vm_task_mmap_object.
  unfoldable pub mmap_object : Task → Objects m → ℕ → ℕ → ℕ → ℕ → ℕ → ℕ → Outcome (Result ℕ)
  mmap_object t k addr_hint len prot flags obj object_offset = elim t.vm_map [
    | none ↦ (fail invalid, t, k)
    | some map ↦
        let alen = align_up len in
        let (addr, map', k') = place t map k addr_hint alen flags in
        let t' = record t { vm_map = some map' } in
        if (len == 0) || (obj == 0)
        then (fail invalid, t, k)
        else if addr == 0
        then (fail nomem, t', k')
        else enter t' map' k' addr alen prot (bit_or flags map_lazy) obj object_offset
  ]

  -- The caller's own reference on a fresh object, dropped once the map holds one.
  drop_own : {A : Type 0} → ℕ → Outcome A → Outcome A
  drop_own obj (a, t, k) = (a, t, unref m k obj)

  -- vm_task_mmap.
  unfoldable pub mmap : Task → Objects m → ℕ → ℕ → ℕ → ℕ → Outcome (Result ℕ)
  unfolding drop_own
  mmap t k addr_hint len prot flags = elim t.vm_map [
    | none ↦ (fail invalid, t, k)
    | some map ↦
        let alen = align_up len in
        let (addr, map', k1) = place t map k addr_hint alen flags in
        let t' = record t { vm_map = some map' } in
        let (obj, k2) = create m k1 anon alen in
        let lazy = bit_or (bit_or flags map_lazy) map_anon in
        if len == 0
        then (fail invalid, t, k)
        else if addr == 0
        then (fail nomem, t', k1)
        else if obj == 0
        then (fail nomem, t', k2)
        else drop_own obj (enter t' map' k2 addr alen prot lazy obj 0)
  ]

  -- The backing of a fresh file object: `obj->pager_private = fb`.
  set_backing : Objects m → ℕ → FileBacking → Objects m
  set_backing k p fb = elim (k.object p) [
    | none ↦ k
    | some o ↦ record k { object = update k.object p (some (record o { pager_private = some fb })) }
  ]

  -- vm_task_mmap_file; `bytes` is the address of the file's data.
  unfoldable pub mmap_file : Task → Objects m → ℕ → ℕ → ℕ → ℕ → ℕ → ℕ → ℕ → Outcome (Result ℕ)
  unfolding drop_own set_backing
  mmap_file t k addr_hint len prot flags bytes data_size file_offset = elim t.vm_map [
    | none ↦ (fail invalid, t, k)
    | some map ↦
        let alen = align_up len in
        let (addr, map', k1) = place t map k addr_hint alen flags in
        let t' = record t { vm_map = some map' } in
        let (obj, k2) = create m k1 file alen in
        let (fb, hw) = m.kmalloc k2.refs.hw 24 in
        let k3 = record k2 { refs = record (k2.refs) { hw = hw } } in
        let k4 =
          set_backing k3 obj
            (record { addr = fb; bytes = bytes; size = data_size; file_offset = 0 }) in
        if (len == 0) || (bytes == 0)
        then (fail invalid, t, k)
        else if addr == 0
        then (fail nomem, t', k1)
        else if obj == 0
        then (fail nomem, t', k2)
        else if fb == 0
        then (fail nomem, t', unref m k3 obj)
        else drop_own obj (enter t' map' k4 addr alen prot (bit_or flags map_lazy) obj file_offset)
  ]

  -- vm_task_munmap.
  unfoldable pub munmap : Task → Objects m → ℕ → ℕ → Outcome Status
  munmap t k addr len = elim t.vm_map [
    | none ↦ (invalid, t, k)
    | some map ↦
        let (rc, map', k') = remove m map k addr len t.address_space in
        if t.address_space == 0 then (invalid, t, k) else (rc, record t { vm_map = some map' }, k')
  ]

  -- The branch of vm_task_brk that grows the heap, up to the status of vm_map_add.
  grow : VmMap → Objects m → ℕ → ℕ → Status × VmMap × Objects m
  grow map k brk_end len =
      let (obj, k1) = create m k anon len in
      let flags = bit_or (bit_or map_anon map_private) map_lazy in
      let (rc, map', k2) = add m map k1 brk_end len (bit_or prot_read prot_write) flags obj 0 in
      if obj == 0 then (nomem, map, k1) else (rc, map', unref m k2 obj)

  -- vm_task_brk.
  unfoldable pub brk : Task → Objects m → ℕ → Outcome (Result ℕ)
  unfolding grow
  brk t k new_break = elim t.vm_map [
    | none ↦ (fail invalid, t, k)
    | some map ↦
        let new_end = align_up new_break in
        let (rc, grown, k1) = grow map k t.brk_end (new_end - t.brk_end) in
        let (_, shrunk, k2) = remove m map k new_end (t.brk_end - new_end) t.address_space in
        if new_break == 0
        then (done t.brk_end, t, k)
        else if (t.brk_base == 0) || ltb new_end t.brk_base
        then (fail invalid, t, k)
        else if ltb t.brk_end new_end
        then (if is_ok rc
            then (done new_end, record t { vm_map = some grown; brk_end = new_end }, k1)
            else (fail rc, record t { vm_map = some grown }, k1))
        else if ltb new_end t.brk_end
        then (done new_end, record t { vm_map = some shrunk; brk_end = new_end }, k2)
        else (done new_end, record t { brk_end = new_end }, k)
  ]
