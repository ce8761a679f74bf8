-- ===== src/Vm/Remove.antt =====
-- vm_map_remove, on each of its replies.
use rodnix.Prelude.{
  ℕ, ◌≤◌, ◌<◌, ◌≡◌, ◌≢◌, refl, Bool, true, false, List, [], ◌∷◌, none, leb, arith, ◌⊎◌, inl, inr,
  Bool-cases, length, ◌||◌, ◌==◌, if◌then◌else◌, add64, ok, busy, invalid, notfound,
}
use rodnix.Vm.Machine.{Machine}
use rodnix.Vm.Object.{Objects}
use rodnix.Vm.Range.{align_down, align_up}
use rodnix.Vm.Map.{Entry, VmMap, Removal, remove, remove_from, overlaps, max_entries, unmap_cut}
use rodnix.Vm.Trim.{view-trim}
use rodnix.Vm.View.{view, inside}
use rodnix.Vm.Removal.{remove_from-trim, length-remove_from-le, removed-overlaps, AllNonempty}
use rodnix.Vm.Full.{full-Left, limit}
use rodnix.Vm.Table.{IsTable, trim-IsTable}

-- The page-aligned range of a call.
abbrev pub first : ℕ → ℕ
first start = align_down start

abbrev pub last : ℕ → ℕ → ℕ
last start len = align_up (add64 start len)

-- A map within its invariant and its 128 entries.
pub record IsMap (es : List Entry) : Type 0 where
  pub table : IsTable es
  pub room : length es ≤ max_entries

nonempty : (es : List Entry) → IsTable es → AllNonempty es
nonempty [] t = tt
nonempty (e ∷ es) t = (t.0.nonempty, nonempty es (t.2))

module _ (m : Machine) (map : VmMap) (k : Objects m) (start len pml4 : ℕ) where
  abbrev s : ℕ
  s = first start

  abbrev e : ℕ
  e = last start len

  abbrev mapped : Bool
  mapped = pml4 == map.pml4_phys

  abbrev loop : Removal m
  loop = remove_from m mapped pml4 s e (length map.entries) k map.entries

  -- The reply and the map, once the call's range is not refused.
  pub remove-eq :
      ((len == 0) || leb e s) ≡ false
      → remove m map k start len pml4 ≡ (
        (if loop.full then busy else if loop.removed then ok else notfound),
        record map { entries = loop.entries },
        loop.memory,
      )
  unfolding remove
  remove-eq h = rw h

  remove-invalid :
      ((len == 0) || leb e s) ≡ true → remove m map k start len pml4 ≡ (invalid, map, k)
  unfolding remove
  remove-invalid h = rw h

  -- A vm_map_remove that replies neither RDNX_E_INVALID nor RDNX_E_BUSY leaves exactly the
  -- mappings outside the page-aligned range: at each address of the range there is none, and at
  -- each other one the same object page with the same protection and flags as before.
  pub view-remove :
      (a : ℕ)
      → (remove m map k start len pml4).0 ≢ invalid
      → (remove m map k start len pml4).0 ≢ busy
      → view (remove m map k start len pml4).1.entries a
        ≡ (if inside s e a then none else view map.entries a)
  view-remove a = elim (Bool-cases ((len == 0) || leb e s)) [
    | inl h ↦ rw (remove-invalid h) (λ ni nb. absurd (ni refl))
    | inr h ↦ rw (remove-eq h) (elim (Bool-cases loop.full) [
      | inl f ↦ rw f (λ ni nb. absurd (nb refl))
      | inr f ↦ λ ni nb.
          rw (remove_from-trim m mapped pml4 s e (length map.entries) k map.entries f)
            (view-trim s e map.entries a)
    ])
  ]

  loop-IsTable :
      IsTable map.entries → ((loop.full ≡ true) ⊎ (loop.full ≡ false)) → IsTable loop.entries
  loop-IsTable t (inl f) =
      rw ((full-Left m mapped pml4 s e (length map.entries) k map.entries t f).0) t
  loop-IsTable t (inr f) =
      rw (remove_from-trim m mapped pml4 s e (length map.entries) k map.entries f)
        (trim-IsTable s e (omega arith) (omega arith) map.entries t)

  length-loop-le : length map.entries ≤ max_entries → length loop.entries ≤ max_entries
  length-loop-le h = omega (
    arith,
    length-remove_from-le m mapped pml4 s e 0 (length map.entries) k map.entries (omega arith) h,
  )

  -- On every reply vm_map_remove keeps the invariant of the map: page-aligned, non-overlapping
  -- entries in the user range, at most 128 of them.
  pub remove-IsMap : IsMap map.entries → IsMap (remove m map k start len pml4).1.entries
  remove-IsMap v = elim (Bool-cases ((len == 0) || leb e s)) [
    | inl h ↦ rw (remove-invalid h) v
    | inr h ↦ rw (remove-eq h) (record {
      table = loop-IsTable v.table (Bool-cases loop.full);
      room = length-loop-le v.room;
    })
  ]

  -- If vm_map_remove replies RDNX_E_BUSY, the table was full with 128 entries and is unchanged,
  -- although the pages of the range are gone from the page tables if these are the map's.
  pub remove-busy :
      IsMap map.entries
      → (remove m map k start len pml4).0 ≡ busy
      → ((remove m map k start len pml4).1.entries ≡ map.entries)
        × (length map.entries ≡ max_entries)
        × ((remove m map k start len pml4).2 ≡ unmap_cut m mapped pml4 s e k)
  remove-busy v = elim (Bool-cases ((len == 0) || leb e s)) [
    | inl h ↦ rw (remove-invalid h) (λ b. cc b)
    | inr h ↦ rw (remove-eq h) (elim (Bool-cases loop.full) [
      | inl f ↦ rw f (λ b.
          let left = full-Left m mapped pml4 s e (length map.entries) k map.entries v.table f in
          let full = limit m mapped pml4 s e (length map.entries) k map.entries v.table f in
          (left.0, omega (arith, v.room), left.1))
      | inr f ↦
          rw f
            (elim (Bool-cases loop.removed) [ inl g ↦ rw g (λ b. cc b) | inr g ↦ rw g (λ b. cc b) ])
    ])
  ]

  not-full : IsMap map.entries → length map.entries < max_entries → loop.full ≡ false
  not-full v h = elim (Bool-cases loop.full) [
    | inl f ↦
        absurd (omega (arith, limit m mapped pml4 s e (length map.entries) k map.entries v.table f))
    | inr f ↦ f
  ]

  -- On a map with a free entry, a vm_map_remove of a proper range replies RDNX_OK if an entry
  -- overlaps the range and RDNX_E_NOTFOUND if none does.
  pub remove_status :
      IsMap map.entries
      → length map.entries < max_entries
      → len ≢ 0
      → s < e
      → (remove m map k start len pml4).0 ≡ (if overlaps map.entries s e then ok else notfound)
  remove_status v h n lt = rw (
    remove-eq (ground (arith, n, lt)),
    not-full v h,
    removed-overlaps m mapped pml4 s e (length map.entries) k map.entries lt
        (nonempty map.entries v.table),
  )

  -- A proper range is not refused.
  pub remove-ne-invalid : len ≢ 0 → s < e → (remove m map k start len pml4).0 ≢ invalid
  remove-ne-invalid n lt = rw (remove-eq (ground (arith, n, lt))) (elim (Bool-cases loop.full) [
    | inl f ↦ rw f (λ h. cc h)
    | inr f ↦
        rw f
          (elim (Bool-cases loop.removed) [ inl g ↦ rw g (λ h. cc h) | inr g ↦ rw g (λ h. cc h) ])
  ])
