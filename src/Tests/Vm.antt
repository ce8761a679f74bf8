-- ===== src/Tests/Vm.antt =====
-- kernel/vm on a small address space.
mod Cow
use rodnix.Prelude.{
  ℕ, ◌+◌, ◌-◌, ◌*◌, ◌≡◌, ◌≢◌, ◌≤◌, ◌<◌, refl, Bool, true, false, Option, some, none, List, [], ◌∷◌,
  length, arith, inl, inr, Status, ok, invalid, busy, notfound, unsupported, done, add64, leb, ltb,
  ◌==◌, if◌then◌else◌,
}
use rodnix.Vm.PageRef.{Refs, release, find, bump, drop_ref, add_new, retain}
use rodnix.Vm.Range.{range_valid, page_size, align_up}
use rodnix.Vm.Object.{
  Objects, VmObject, ref, unref, create, anon, destroy, get_resident_page, release_pages,
}
use rodnix.Vm.Map.{
  Entry, VmMap, remove, remove_from, cut, unmap_cut, add, overlaps, lookup, max_entries, has_bit,
  max_entries,
}
use rodnix.Vm.View.{Mapping, view, inside, seen}
use rodnix.Vm.Remove.{IsMap, first, last, view-remove, remove-IsMap, remove_status, remove-busy}
use rodnix.Vm.Add.{view-add}
use rodnix.Vm.Gap.{find_gap, gap_from, IsFree, find_gap-IsFree, find_gap-first}
use rodnix.Vm.Task.{Task, mmap, place, enter, brk}
use rodnix.Vm.Mmap.{task_entries, view-mmap, mmap-IsMap}
use rodnix.Vm.Brk.{view-brk_grow, view-brk_shrink, heap_prot, heap_flags}
use rodnix.Vm.Protect.{mprotect, protect_from, remap_pages}
use rodnix.Vm.Mprotect.{view-mprotect, with_prot}
use rodnix.Vm.Life.{
  fork_clone, clone_entries, clone_pages, is_cow_candidate, mark_cow, map_alloc,
  pte_flags_from_prot, drain,
}
use rodnix.Vm.Fork.{view-fork_clone, forked}
use rodnix.Vm.Cow.{clone_pages-read_only, pte_rw}
use rodnix.Vm.Fault.{fault_handle, access_denied}
use rodnix.Vm.Exit.{drain-empty}
use rodnix.Vm.RefCounts.{IsLive, refs_of, retain-counts, release-counts}
use rodnix.Tests.Machine.{Toy, Pte, toy}

-- A private writable mapping of four pages below the heap's end, and a stack.
abbrev heap_entry : Entry
heap_entry = record {
  start = 0x40_0000;
  end = 0x40_4000;
  prot = 3;
  flags = 11;
  object = 0;
  object_offset = 0;
}

abbrev stack_entry : Entry
stack_entry = record {
  start = 0x7000_0000;
  end = 0x7000_2000;
  prot = 3;
  flags = 26;
  object = 0;
  object_offset = 0;
}

abbrev small_map : VmMap
small_map = record { addr = 0x9000; pml4_phys = 0x5000; entries = heap_entry ∷ stack_entry ∷ [] }

abbrev memory : Objects toy
memory = record {
  refs = record { hw = record { next = 0; ptes = [] }; nodes = [] };
  object = λ p. none;
}

abbrev task : Task
task = record {
  vm_map = some small_map;
  address_space = 0x5000;
  brk_base = 0x40_0000;
  brk_end = 0x40_4000;
  mmap_base = 0x6000_0000;
  mmap_hint = 0x6000_0000;
}

small_valid : IsMap small_map.entries
small_valid = record { table = omega arith; room = omega arith }

-- Taking the second page out of the four cuts the entry in two.
hole_status : (remove toy small_map memory 0x40_1000 0x1000 0x6000).0 ≡ ok
unfolding remove remove_from cut unmap_cut ref
hole_status = refl

view-remove_example :
    view (remove toy small_map memory 0x40_1000 0x1000 0x6000).1.entries 0x40_1800 ≡ none
unfolding remove remove_from cut unmap_cut ref
view-remove_example =
    view-remove toy small_map memory 0x40_1000 0x1000 0x6000 0x40_1800 (λ h. cc h) (λ h. cc h)

mmap_status : (mmap toy task memory 0 0x1800 3 2).0 ≡ done 0x6000_0000
unfolding mmap place enter create add overlaps range_valid ref unref find_gap gap_from
mmap_status = refl

view-mmap_example :
    view (task_entries (mmap toy task memory 0 0x1800 3 2).1.vm_map) 0x6000_1004
    ≡ some (record { prot = 3; flags = 11; object = 0x8000_0000; offset = 0x1004 })
unfolding create place find_gap gap_from overlaps
view-mmap_example =
    view-mmap toy task small_map memory 0 0x1800 3 2 refl 0x6000_0000 0x6000_1004 small_valid
      mmap_status

brk_grow_status : (brk toy task memory 0x40_5001).0 ≡ done 0x40_6000
unfolding brk create add overlaps range_valid ref unref
brk_grow_status = refl

brk_shrink_status : (brk toy task memory 0x40_1001).0 ≡ done 0x40_2000
unfolding brk remove remove_from cut unmap_cut
brk_shrink_status = refl

mprotect_status : (mprotect toy task memory 0x40_0000 0x4000 1).0 ≡ ok
unfolding mprotect protect_from remap_pages pte_flags_from_prot
mprotect_status = refl

-- One page of the heap is present when the task forks.
abbrev touched : Objects toy
touched = record memory {
  refs = record {
    hw = record {
      next = 7;
      ptes = record { pml4 = 0x5000; va = 0x40_1000; phys = 0x10_0000; flags = 7 } ∷ [];
    };
    nodes = record { addr = 0x8000; phys = 0x10_0000; refs = 1 } ∷ [];
  };
}

abbrev child : Task
child = record task { vm_map = none; address_space = 0x6000 }

fork_status : (fork_clone toy task child touched 0x6000).0 ≡ ok
unfolding fork_clone clone_entries clone_pages is_cow_candidate mark_cow map_alloc
    pte_flags_from_prot ref retain add_new find bump
fork_status = refl

view-fork_clone_example :
    let (_, parent', child', _) = fork_clone toy task child touched 0x6000 in
    (view (task_entries parent'.vm_map) 0x40_1000
      ≡ some (record { prot = 3; flags = 43; object = 0; offset = 0x1000 }))
    × (view (task_entries child'.vm_map) 0x40_1000
        ≡ some (record { prot = 3; flags = 43; object = 0; offset = 0x1000 }))
    × (child'.brk_base ≡ 0x40_0000)
    × (child'.brk_end ≡ 0x40_4000)
    × (child'.mmap_hint ≡ 0x6000_0000)
unfolding lookup
view-fork_clone_example =
    view-fork_clone toy task child small_map touched 0x6000 0x40_1000 refl fork_status
