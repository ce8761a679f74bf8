-- ===== src/Vm/Mmap.antt =====
-- The mmap calls: what a task's address space shows after one.
use Prim.Native.Nat.{bit_or}
use rodnix.Prelude.{
  ℕ, ◌-◌, ◌≡◌, ◌≢◌, refl, ap, Bool, Option, List, [], some, none, arith, inl, inr, Bool-cases,
  length, ◌==◌, if◌then◌else◌, add64, ok, busy, done,
}
use rodnix.Vm.Machine.{Machine}
use rodnix.Vm.Object.{Objects, create, anon}
use rodnix.Vm.Range.{align_down, align_up}
use rodnix.Vm.Map.{Entry, VmMap, add, remove, has_bit, map_fixed, map_lazy, map_anon}
use rodnix.Vm.View.{view, inside}
use rodnix.Vm.Remove.{IsMap, first, last, view-remove, remove-busy, remove-IsMap, remove-ne-invalid}
use rodnix.Vm.Add.{view-add, add-inv, add-IsMap}
use rodnix.Vm.Gap.{find_gap}
use rodnix.Vm.Task.{Task, place, enter, mmap, mmap_object}

-- The entries of a task's map.
abbrev pub task_entries : Option VmMap → List Entry
task_entries none = []
task_entries (some map) = map.entries

module _ (m : Machine) (t : Task) (map : VmMap) (k : Objects m) (addr_hint alen flags : ℕ) where
  place-IsMap : IsMap map.entries → IsMap (place m t map k addr_hint alen flags).1.entries
  unfolding place
  place-IsMap v = elim (Bool-cases (has_bit flags map_fixed)) [
    | inl f ↦ rw f (remove-IsMap m map k (align_down addr_hint) alen t.address_space v)
    | inr f ↦ rw f v
  ]

  -- Clearing the range of a fixed mapping and entering the mapping show together as the mapping.
  view-place :
      (prot fl obj off : ℕ) (k2 : Objects m) (a : ℕ)
      → IsMap map.entries
      → let p = place m t map k addr_hint alen flags in
        (add m p.1 k2 p.0 alen prot fl obj off).0 ≡ ok
        → view (add m p.1 k2 p.0 alen prot fl obj off).1.entries a ≡ (
            if inside (first p.0) (last p.0 alen) a
            then some (record {
              prot = prot;
              flags = fl;
              object = obj;
              offset = add64 off (a - first p.0);
            })
            else view map.entries a)
  unfolding place
  view-place prot fl obj off k2 a v = elim (Bool-cases (has_bit flags map_fixed)) [
    | inr f ↦
        rw f (λ h. (view-add m map k2 (find_gap map.entries hint alen) alen prot fl obj off a h).1)
    | inl f ↦ rw f (λ h. fixed h)
  ]
    where
      hint : ℕ
      hint = if addr_hint == 0 then t.mmap_hint else addr_hint

      addr : ℕ
      addr = align_down addr_hint

      cleared : VmMap
      cleared = (remove m map k addr alen t.address_space).1

      not_busy :
          (add m cleared k2 addr alen prot fl obj off).0 ≡ ok
          → (remove m map k addr alen t.address_space).0 ≢ busy
      not_busy h b =
          let left = remove-busy m map k addr alen t.address_space v b in
          omega
            (arith, add-inv m cleared k2 addr alen prot fl obj off h, ap length (left.0), left.1)

      fixed :
          (add m cleared k2 addr alen prot fl obj off).0 ≡ ok
          → view (add m cleared k2 addr alen prot fl obj off).1.entries a ≡ (
              if inside (first addr) (last addr alen) a
              then some (record {
                prot = prot;
                flags = fl;
                object = obj;
                offset = add64 off (a - first addr);
              })
              else view map.entries a)
      fixed h =
          let i = add-inv m cleared k2 addr alen prot fl obj off h in
          let w =
            view-remove m map k addr alen t.address_space a
              (remove-ne-invalid m map k addr alen t.address_space (i.5) (i.6)) (not_busy h) in
          rw ((view-add m cleared k2 addr alen prot fl obj off a h).1, w)
            (elim (Bool-cases (inside (first addr) (last addr alen) a)) [
              | inl b ↦ rw b refl
              | inr b ↦ rw b refl
            ])

module _ (m : Machine) where
  -- The end of a call that replies with an address.
  enter-done :
      (t : Task) (map : VmMap) (k : Objects m) (addr alen prot fl obj off : ℕ) {a : ℕ}
      → (enter m t map k addr alen prot fl obj off).0 ≡ done a
      → (a ≡ addr)
        × ((add m map k addr alen prot fl obj off).0 ≡ ok)
        × ((enter m t map k addr alen prot fl obj off).1 ≡ record t {
          vm_map = some (add m map k addr alen prot fl obj off).1;
          mmap_hint = add64 addr alen;
        })
  unfolding enter
  enter-done t map k addr alen prot fl obj off h = ground arith

  module _ (t : Task) (map : VmMap) (k : Objects m) (addr_hint len prot flags : ℕ)
      (is_map : t.vm_map ≡ some map) where
    abbrev placed : ℕ × VmMap × Objects m
    placed = place m t map k addr_hint (align_up len) flags

    -- The object that vm_task_mmap creates, and the memory after that.
    abbrev fresh : ℕ × Objects m
    fresh = create m placed.2 anon (align_up len)

    mmap-done :
        {addr : ℕ}
        → (mmap m t k addr_hint len prot flags).0 ≡ done addr
        → let t1 = record t { vm_map = some placed.1 } in
          let fl = bit_or (bit_or flags map_lazy) map_anon in
          ((enter m t1 placed.1 fresh.1 placed.0 (align_up len) prot fl fresh.0 0).0 ≡ done addr)
          × ((mmap m t k addr_hint len prot flags).1
              ≡ (enter m t1 placed.1 fresh.1 placed.0 (align_up len) prot fl fresh.0 0).1)
    unfolding mmap
    mmap-done h = ground (arith, is_map)

    -- The range of the addresses from `addr` on.
    abbrev within : ℕ → ℕ → Bool
    within addr a = inside (first addr) (last addr (align_up len)) a

    -- When vm_task_mmap replies with an address, the pages there show the object that it created,
    -- lazy and anonymous, with the protection asked for and each page at its own offset; every
    -- other address shows what it showed before. Fixed and free placement alike.
    pub view-mmap :
        (addr a : ℕ)
        → IsMap map.entries
        → (mmap m t k addr_hint len prot flags).0 ≡ done addr
        → view (task_entries (mmap m t k addr_hint len prot flags).1.vm_map) a ≡ (
            if within addr a
            then some (record {
              prot = prot;
              flags = bit_or (bit_or flags map_lazy) map_anon;
              object = fresh.0;
              offset = add64 0 (a - first addr);
            })
            else view map.entries a)
    view-mmap addr a v h =
        let d = mmap-done h in
        let t1 = record t { vm_map = some placed.1 } in
        let fl = bit_or (bit_or flags map_lazy) map_anon in
        let e = enter-done t1 placed.1 fresh.1 placed.0 (align_up len) prot fl fresh.0 0 (d.0) in
        rw (d.1, e.2, e.0)
          (view-place m t map k addr_hint (align_up len) flags prot fl fresh.0 0 fresh.1 a v (e.1))

    mmap_object-done :
        (obj off : ℕ) {addr : ℕ}
        → (mmap_object m t k addr_hint len prot flags obj off).0 ≡ done addr
        → let t1 = record t { vm_map = some placed.1 } in
          let fl = bit_or flags map_lazy in
          ((enter m t1 placed.1 placed.2 placed.0 (align_up len) prot fl obj off).0 ≡ done addr)
          × ((mmap_object m t k addr_hint len prot flags obj off).1
              ≡ (enter m t1 placed.1 placed.2 placed.0 (align_up len) prot fl obj off).1)
    unfolding mmap_object
    mmap_object-done obj off h = ground (arith, is_map)

    -- vm_task_mmap_object does the same with the caller's object, from the caller's offset on.
    pub view-mmap_object :
        (obj off addr a : ℕ)
        → IsMap map.entries
        → (mmap_object m t k addr_hint len prot flags obj off).0 ≡ done addr
        → view (task_entries (mmap_object m t k addr_hint len prot flags obj off).1.vm_map) a ≡ (
            if within addr a
            then some (record {
              prot = prot;
              flags = bit_or flags map_lazy;
              object = obj;
              offset = add64 off (a - first addr);
            })
            else view map.entries a)
    view-mmap_object obj off addr a v h =
        let d = mmap_object-done obj off h in
        let t1 = record t { vm_map = some placed.1 } in
        let fl = bit_or flags map_lazy in
        let e = enter-done t1 placed.1 placed.2 placed.0 (align_up len) prot fl obj off (d.0) in
        rw (d.1, e.2, e.0)
          (view-place m t map k addr_hint (align_up len) flags prot fl obj off placed.2 a v (e.1))

    -- Whatever vm_task_mmap replies, the map keeps its invariant.
    pub mmap-IsMap :
        IsMap map.entries → IsMap (task_entries (mmap m t k addr_hint len prot flags).1.vm_map)
    unfolding mmap enter
    mmap-IsMap v =
        let p = place-IsMap m t map k addr_hint (align_up len) flags v in
        let q =
          add-IsMap m placed.1 fresh.1 placed.0 (align_up len) prot
            (bit_or (bit_or flags map_lazy) map_anon) fresh.0 0 p in
        ground (arith, is_map)
