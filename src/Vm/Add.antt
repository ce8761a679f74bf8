-- ===== src/Vm/Add.antt =====
-- vm_map_add and vm_find_gap: a new mapping lands on free addresses and nowhere else.
use rodnix.Prelude.{
  ℕ, ◌<◌, ◌≡◌, ◌≢◌, true, false, List, [], ◌∷◌, ◌++◌, some, arith, inl, inr, length, length-append,
  if◌then◌else◌, Status, ok, ok-cases,
}
use rodnix.Vm.Machine.{Machine}
use rodnix.Vm.Object.{Objects, ref}
use rodnix.Vm.Range.{range_valid}
use rodnix.Vm.Map.{Entry, VmMap, add, overlaps, max_entries}
use rodnix.Vm.View.{view, inside, seen, view-cons}
use rodnix.Vm.Remove.{IsMap, first, last}
use rodnix.Vm.Table.{IsEntry, IsAligned, snoc-IsTable}

view-snoc :
    (es : List Entry) (n : Entry) (a : ℕ)
    → overlaps es n.start n.end ≡ false
    → view (es ++ n ∷ []) a ≡ (if inside n.start n.end a then some (seen n a) else view es a)
unfolding overlaps
view-snoc [] n a o = view-cons n [] a
view-snoc (e ∷ es) n a o =
    rw (view-cons e (es ++ n ∷ []) a, view-cons e es a) (ground (arith, view-snoc es n a))

range_valid-IsEntry :
    (n : Entry) → range_valid n.start n.end ≡ true → IsAligned n.start → IsAligned n.end → IsEntry n
unfolding range_valid
range_valid-IsEntry n h p q = ground arith

module _ (m : Machine) (map : VmMap) (k : Objects m)
    (start len prot flags obj object_offset : ℕ) where
  abbrev s : ℕ
  s = first start

  abbrev e : ℕ
  e = last start len

  -- The entry that the call makes.
  abbrev new_entry : Entry
  new_entry = record {
    start = s;
    end = e;
    prot = prot;
    flags = flags;
    object = obj;
    object_offset = object_offset;
  }

  abbrev call : Status × VmMap × Objects m
  call = add m map k start len prot flags obj object_offset

  pub add-inv :
      call.0 ≡ ok
      → (range_valid s e ≡ true)
        × (length map.entries < max_entries)
        × (overlaps map.entries s e ≡ false)
        × (call.1.entries ≡ map.entries ++ new_entry ∷ [])
        × (call.2 ≡ ref m k obj)
        × (len ≢ 0)
        × (s < e)
  unfolding add range_valid
  add-inv = ground arith

  -- After a vm_map_add that replies RDNX_OK, each address of the page-aligned range, where
  -- nothing was mapped before, shows the new mapping, and each other address shows what it
  -- showed before.
  pub view-add :
      (a : ℕ)
      → call.0 ≡ ok
      → (overlaps map.entries s e ≡ false)
        × (view call.1.entries a
            ≡ (if inside s e a then some (seen new_entry a) else view map.entries a))
  view-add a h = let i = add-inv h in (i.2, rw (i.3) (view-snoc map.entries new_entry a (i.2)))

  -- A vm_map_add that fails changes neither the map nor the objects.
  pub add-fails : call.0 ≢ ok → (call.1 ≡ map) × (call.2 ≡ k)
  unfolding add
  add-fails h = ground arith

  -- vm_map_add keeps the invariant of the map, whatever it replies.
  pub add-IsMap : IsMap map.entries → IsMap call.1.entries
  add-IsMap v = elim (ok-cases call.0) [
    | inr h ↦ rw ((add-fails h).0) v
    | inl h ↦
        let i = add-inv h in
        rw (i.3) (record {
          table =
              snoc-IsTable map.entries new_entry v.table
                (range_valid-IsEntry new_entry (i.0) (omega arith) (omega arith)) (i.2);
          room = rw (length-append map.entries (new_entry ∷ [])) (omega arith);
        })
  ]
