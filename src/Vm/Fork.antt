-- ===== src/Vm/Fork.antt =====
-- vm_task_fork_clone: what parent and child see afterwards, and what the page tables may write.
use Prim.Native.Nat.{bit_or}
use rodnix.Prelude.{
  ℕ, ◌+◌, ◌≤◌, ◌≡◌, ◌≢◌, refl, Bool, Option, List, [], ◌∷◌, some, none, map, arith, length, ◌&&◌,
  if◌then◌else◌, ok, busy,
}
use rodnix.Vm.Machine.{Machine}
use rodnix.Vm.PageRef.{Refs}
use rodnix.Vm.Object.{Objects, ref}
use rodnix.Vm.Map.{
  Entry, VmMap, has_bit, map_private, map_cow, prot_write, max_entries, page_rounds,
}
use rodnix.Vm.View.{Mapping, view, view-cons, view-nil}
use rodnix.Vm.Task.{Task}
use rodnix.Vm.Life.{
  Clone, map_alloc, clone_pages, clone_entries, mark_cow, is_cow_candidate, fork_clone,
}
use rodnix.Vm.Mmap.{task_entries}

module _ (m : Machine) (parent_pml4 child_pml4 : ℕ) where
  abbrev loop : ℕ → Objects m → List Entry → Clone m
  loop count k es = clone_entries m parent_pml4 child_pml4 count es k

  -- The memory once an entry's object is shared and its pages are mapped in the child.
  abbrev cloned : Objects m → Entry → Bool × Refs m
  cloned k pe =
      clone_pages m (is_cow_candidate pe) pe.prot parent_pml4 child_pml4 pe.start
        (page_rounds pe.start pe.end) (ref m k pe.object).refs

  abbrev next : Objects m → Entry → Objects m
  next k pe = record (ref m k pe.object) { refs = (cloned k pe).1 }

  -- A clone that ends well has marked every entry, in both tables alike.
  pub clone-marks :
      (count : ℕ) (k : Objects m) (es : List Entry)
      → (loop count k es).status ≡ ok
      → ((loop count k es).parent ≡ map mark_cow es) × ((loop count k es).child ≡ map mark_cow es)
  unfolding clone_entries
  clone-marks count k [] h = (refl, refl)
  clone-marks count k (pe ∷ rest) h = ground (arith, clone-marks (count + 1) (next k pe) rest)

  -- A clone of a table of at most 128 entries never finds the child's table full.
  clone-ne-busy :
      (count : ℕ) (k : Objects m) (es : List Entry)
      → count + length es ≤ max_entries
      → (loop count k es).status ≢ busy
  unfolding clone_entries
  clone-ne-busy count k [] h = λ b. cc b
  clone-ne-busy count k (pe ∷ rest) h = ground (arith, clone-ne-busy (count + 1) (next k pe) rest)

-- The mapping that a fork leaves: the same, but marked copy on write if it is private and writable.
abbrev pub forked : Option Mapping → Option Mapping
forked none = none
forked (some w) = some (record w {
  flags =
      if has_bit w.prot prot_write && has_bit w.flags map_private
      then bit_or w.flags map_cow
      else w.flags;
})

view-marked : (es : List Entry) (a : ℕ) → view (map mark_cow es) a ≡ forked (view es a)
view-marked [] a = rw (view-nil a) refl
view-marked (e ∷ es) a =
    rw (view-cons (mark_cow e) (map mark_cow es) a, view-cons e es a, view-marked es a)
      (unfold mark_cow is_cow_candidate in ground arith)

-- When vm_task_fork_clone replies RDNX_OK, parent and child see one and the same view: the
-- parent's from before, with each private writable mapping marked copy on write. The child also
-- takes over the break and the mmap hints.
pub view-fork_clone :
    (m : Machine) (parent child : Task) (pmap : VmMap) (k : Objects m) (child_pml4 a : ℕ)
    → parent.vm_map ≡ some pmap
    → (fork_clone m parent child k child_pml4).0 ≡ ok
    → let (_, parent', child', _) = fork_clone m parent child k child_pml4 in
      (view (task_entries parent'.vm_map) a ≡ forked (view pmap.entries a))
      × (view (task_entries child'.vm_map) a ≡ forked (view pmap.entries a))
      × (child'.brk_base ≡ parent.brk_base)
      × (child'.brk_end ≡ parent.brk_end)
      × (child'.mmap_hint ≡ parent.mmap_hint)
unfolding fork_clone
view-fork_clone m parent child pmap k child_pml4 a is_map h =
    let c = clone-marks m parent.address_space child_pml4 0 (map_alloc m k).1 pmap.entries in
    ground (arith, is_map, c, view-marked pmap.entries a)

-- vm_task_fork_clone of a map within its 128 entries never replies RDNX_E_BUSY.
fork_clone-ne-busy :
    (m : Machine) (parent child : Task) (pmap : VmMap) (k : Objects m) (child_pml4 : ℕ)
    → parent.vm_map ≡ some pmap
    → length pmap.entries ≤ max_entries
    → (fork_clone m parent child k child_pml4).0 ≢ busy
unfolding fork_clone
fork_clone-ne-busy m parent child pmap k child_pml4 is_map room =
    let c =
      clone-ne-busy m parent.address_space child_pml4 0 (map_alloc m k).1 pmap.entries
        (omega arith) in
    ground (arith, is_map, c)
