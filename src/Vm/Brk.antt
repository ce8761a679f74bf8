-- ===== src/Vm/Brk.antt =====
-- vm_task_brk and vm_task_munmap against the view.
use Prim.Native.Nat.{bit_or}
use rodnix.Prelude.{
  ℕ, ◌-◌, ◌^◌, ◌<◌, ◌≡◌, ◌≢◌, sym, some, none, arith, length, if◌then◌else◌, add64, Status, ok,
  busy, invalid, done, fail,
}
use rodnix.Vm.Machine.{Machine}
use rodnix.Vm.Object.{Objects, create, anon}
use rodnix.Vm.Range.{align_up}
use rodnix.Vm.Map.{
  VmMap, add, remove, map_private, map_lazy, map_anon, max_entries, prot_read, prot_write,
}
use rodnix.Vm.View.{view, inside}
use rodnix.Vm.Remove.{IsMap, first, last, view-remove, remove-busy, remove-ne-invalid}
use rodnix.Vm.Add.{view-add, add-fails}
use rodnix.Vm.Task.{Task, brk, munmap}
use rodnix.Vm.Mmap.{task_entries}
use rodnix.Vm.Table.{IsAligned}

-- The flags and the protection of the heap.
abbrev pub heap_flags : ℕ
heap_flags = bit_or (bit_or map_anon map_private) map_lazy

abbrev pub heap_prot : ℕ
heap_prot = bit_or prot_read prot_write

module _ (m : Machine) (t : Task) (map : VmMap) (k : Objects m) (is_map : t.vm_map ≡ some map) where
  -- The object that a growing heap gets.
  abbrev heap_object : ℕ → ℕ × Objects m
  heap_object new_break = create m k anon (align_up new_break - t.brk_end)

  brk-grow :
      (new_break : ℕ) {r : ℕ}
      → new_break ≢ 0
      → t.brk_end < align_up new_break
      → (brk m t k new_break).0 ≡ done r
      → let o = heap_object new_break in
        let c =
          add m map o.1 t.brk_end (align_up new_break - t.brk_end) heap_prot heap_flags o.0 0 in
        (r ≡ align_up new_break)
        × (c.0 ≡ ok)
        × ((brk m t k new_break).1 ≡ record t { vm_map = some c.1; brk_end = align_up new_break })
  unfolding brk
  brk-grow new_break n lt h = ground (arith, is_map)

  -- A vm_task_brk that grows the heap and succeeds replies the page-aligned break and moves the
  -- end there; the pages in between, where nothing was mapped, show the new anonymous object,
  -- private, readable and writable, and every other address shows what it showed before.
  pub view-brk_grow :
      (new_break r a : ℕ)
      → IsAligned t.brk_end
      → new_break ≢ 0
      → t.brk_end < align_up new_break
      → (brk m t k new_break).0 ≡ done r
      → (r ≡ align_up new_break)
        × ((brk m t k new_break).1.brk_end ≡ r)
        × (view (task_entries (brk m t k new_break).1.vm_map) a ≡ (
            if inside t.brk_end r a
            then some (record {
              prot = heap_prot;
              flags = heap_flags;
              object = (heap_object new_break).0;
              offset = add64 0 (a - t.brk_end);
            })
            else view map.entries a))
  view-brk_grow new_break r a al n lt h =
      let d = brk-grow new_break n lt h in
      let o = heap_object new_break in
      let w =
        view-add m map o.1 t.brk_end (align_up new_break - t.brk_end) heap_prot heap_flags o.0 0 a
          (d.1) in
      let f : first t.brk_end ≡ t.brk_end = omega arith in
      let l : last t.brk_end (align_up new_break - t.brk_end) ≡ r = omega (arith, d.0) in
      (d.0, rw (d.2) (sym (d.0)), rw (d.2) (rw (f, l) at (w.1)))

  brk-shrink :
      (new_break : ℕ) {r : ℕ}
      → new_break ≢ 0
      → align_up new_break < t.brk_end
      → (brk m t k new_break).0 ≡ done r
      → let c =
          remove m map k (align_up new_break) (t.brk_end - align_up new_break) t.address_space in
        (r ≡ align_up new_break)
        × ((brk m t k new_break).1 ≡ record t { vm_map = some c.1; brk_end = align_up new_break })
  unfolding brk
  brk-shrink new_break n lt h = ground (arith, is_map)

  -- A vm_task_brk that shrinks the heap of a map with a free entry moves the end down to the
  -- page-aligned break; exactly the pages in between are no longer mapped.
  pub view-brk_shrink :
      (new_break r a : ℕ)
      → IsMap map.entries
      → length map.entries < max_entries
      → IsAligned t.brk_end
      → t.brk_end < 2 ^ 64
      → new_break ≢ 0
      → align_up new_break < t.brk_end
      → (brk m t k new_break).0 ≡ done r
      → (r ≡ align_up new_break)
        × ((brk m t k new_break).1.brk_end ≡ r)
        × (view (task_entries (brk m t k new_break).1.vm_map) a
            ≡ (if inside r t.brk_end a then none else view map.entries a))
  view-brk_shrink new_break r a v room al w64 n lt h =
      let d = brk-shrink new_break n lt h in
      let start = align_up new_break in
      let len = t.brk_end - start in
      let f : first start ≡ r = omega (arith, d.0) in
      let l : last start len ≡ t.brk_end = omega arith in
      let free : (remove m map k start len t.address_space).0 ≢ busy =
        λ b. omega (arith, remove-busy m map k start len t.address_space v b) in
      let valid = remove-ne-invalid m map k start len t.address_space (omega arith) (omega arith) in
      let w = view-remove m map k start len t.address_space a valid free in
      (d.0, rw (d.1) (sym (d.0)), rw (d.1) (rw (f, l) at w))

  -- A vm_task_brk that fails leaves every address as it was and does not move the end.
  pub brk_fails :
      (new_break a : ℕ) {err : Status}
      → (brk m t k new_break).0 ≡ fail err
      → ((brk m t k new_break).1.brk_end ≡ t.brk_end)
        × (view (task_entries (brk m t k new_break).1.vm_map) a ≡ view map.entries a)
  unfolding brk
  brk_fails new_break a h =
      let o = heap_object new_break in
      let len = align_up new_break - t.brk_end in
      let kept = add-fails m map o.1 t.brk_end len heap_prot heap_flags o.0 0 in
      ground (arith, is_map, kept)

  -- A vm_task_munmap that replies RDNX_OK or RDNX_E_NOTFOUND leaves nothing mapped in the range
  -- and everything else as it was.
  pub view-munmap :
      (addr len a : ℕ)
      → (munmap m t k addr len).0 ≢ invalid
      → (munmap m t k addr len).0 ≢ busy
      → view (task_entries (munmap m t k addr len).1.vm_map) a
        ≡ (if inside (first addr) (last addr len) a then none else view map.entries a)
  unfolding munmap
  view-munmap addr len a ni nb =
      ground (arith, is_map, view-remove m map k addr len t.address_space a)
