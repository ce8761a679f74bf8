-- ===== src/Vm/Sharing.antt =====
-- Write faults of two tasks that a fork has left with one object: vm_fault_handle after
-- vm_task_fork_clone.
use Prim.Native.Nat.{bit_or}
use rodnix.Prelude.{
  ap, ap₂, sym, refl, ◌∙◌, inl, inr, Bool-cases, ℕ, ◌-◌, ◌/◌, ◌≤◌, ◌<◌, ◌≡◌, ◌≢◌, true, false, some,
  List, [], ◌∷◌, map, length, get_or, get_or-set_self, arith, add64, ok,
}
use rodnix.Vm.Machine.{Machine}
use rodnix.Vm.PageRef.{retain, alloc_zero_page}
use rodnix.Vm.Range.{align_down, page_size, kernel_virt_base}
use rodnix.Vm.Object.{Objects, VmObject, get_resident_page, set_resident_page}
use rodnix.Vm.Map.{Entry, VmMap, map_cow, has_bit, lookup}
use rodnix.Vm.Task.{Task}
use rodnix.Vm.Life.{pte_flags_from_prot, fork_clone, mark_cow, is_cow_candidate, map_alloc}
use rodnix.Vm.Fork.{clone-marks}
use rodnix.Vm.Fault.{fresh_page, fault_handle, is_user, is_write, access_denied}
use rodnix.Vm.Cow.{pte_rw, writable}

-- The entries that a fork leaves are found at the same addresses.
lookup-marked :
    (es : List Entry) (a : ℕ) (e : Entry)
    → lookup es a ≡ some e
    → lookup (map mark_cow es) a ≡ some (mark_cow e)
unfolding lookup mark_cow
lookup-marked [] a e h = ground (arith, h)
lookup-marked (x ∷ es) a e h = ground (arith, h, lookup-marked es a e)

-- The page of an entry's object that an address stands for.
abbrev pub object_page : Entry → ℕ → ℕ
object_page e va = add64 e.object_offset (va - e.start) / page_size

-- An object of a fault with room for a page that is not resident yet.
pub record IsAbsent (o : VmObject) (i : ℕ) : Type 0 where
  pub within : i < o.page_count
  pub array : length o.resident_pages ≡ o.page_count
  pub absent : get_or o.resident_pages i 0 ≡ 0

-- A user's write that the protection of an entry allows.
pub record IsGranted (addr err_code prot : ℕ) : Type 0 where
  pub user : is_user err_code ≡ true
  pub write : is_write err_code ≡ true
  pub low : 0x1000 ≤ addr
  pub high : addr < kernel_virt_base
  pub allowed : access_denied err_code prot ≡ false

module _ (m : Machine) where
  -- Whether the active page table maps no page at an address.
  abbrev pub Unmapped : m.State → ℕ → Type 0
  Unmapped hw va = align_down (m.get_physical_current hw va) ≡ 0

  -- A fresh page is entered in its object.
  fresh_page-resident :
      (e : Entry) (va i : ℕ) (k : Objects m) (o : VmObject)
      → e.object ≢ 0
      → k.object e.object ≡ some o
      → IsAbsent o i
      → (m.alloc_page k.refs.hw).0 ≢ 0
      → ((fresh_page m e va i k).0 ≡ (m.alloc_page k.refs.hw).0)
        × (get_resident_page m (fresh_page m e va i k).1 e.object i ≡ (m.alloc_page k.refs.hw).0)
  unfolding fresh_page get_resident_page set_resident_page alloc_zero_page
  fresh_page-resident e va i k o ne at a got =
      let phys = (m.alloc_page k.refs.hw).0 in
      let stored = get_or-set_self o.resident_pages i phys 0 (omega (arith, a.within, a.array)) in
      ground (arith, at, ne, got, a.within, a.absent, stored)

  module _ (t : Task) (map : VmMap) (k : Objects m) (addr err_code : ℕ) (e : Entry)
      (is_map : t.vm_map ≡ some map) (space : t.address_space ≢ 0)
      (granted : IsGranted addr err_code e.prot)
      (found : lookup map.entries (align_down addr) ≡ some e)
      (unmapped : Unmapped k.refs.hw (align_down addr)) where
    abbrev va : ℕ
    va = align_down addr

    abbrev resident : ℕ
    resident = get_resident_page m k e.object (object_page e va)

    abbrev fault : Objects m
    fault = (fault_handle m t k addr err_code).1

    -- A fault on a page that is resident maps that page.
    fault_handle-resident :
        resident ≢ 0
        → ((fault_handle m t k addr err_code).0, fault.refs.hw)
          ≡ m.map_page
              (retain m k.refs resident).1.hw
              t.address_space
              va
              resident
              (pte_flags_from_prot e.prot)
    unfolding fault_handle access_denied
    fault_handle-resident res = ground (
      arith, is_map, space, found, unmapped, res, granted.user, granted.write, granted.low,
      granted.high, granted.allowed,
    )

    -- A fault on a page that is not resident maps a fresh page and enters it in the object.
    fault_handle-fresh :
        (o : VmObject)
        → e.object ≢ 0
        → k.object e.object ≡ some o
        → IsAbsent o (object_page e va)
        → (m.alloc_page k.refs.hw).0 ≢ 0
        → (((fault_handle m t k addr err_code).0, fault.refs.hw)
            ≡ m.map_page
                (fresh_page m e va (object_page e va) k).1.refs.hw
                t.address_space
                va
                (m.alloc_page k.refs.hw).0
                (pte_flags_from_prot e.prot))
          × (get_resident_page m fault e.object (object_page e va) ≡ (m.alloc_page k.refs.hw).0)
    unfolding fault_handle access_denied get_resident_page
    fault_handle-fresh o ne at a got =
        let f = fresh_page-resident e va (object_page e va) k o ne at a got in
        ground (
          arith, is_map, space, found, unmapped, ne, at, got, a.within, a.absent, f, granted.user,
          granted.write, granted.low, granted.high, granted.allowed,
        )

-- What a fork leaves of an entry, but for its flags.
marked_flags : (e : Entry) → (f : ℕ) × (mark_cow e ≡ record e { flags = f })
unfolding mark_cow
marked_flags e = elim (Bool-cases (is_cow_candidate e)) [
  | inl b ↦ (bit_or e.flags map_cow, rw b refl)
  | inr b ↦ (e.flags, rw b refl)
]

-- The maps of parent and child after a fork that replies RDNX_OK.
fork_clone-maps :
    (m : Machine) (parent child : Task) (pmap : VmMap) (k : Objects m) (child_pml4 : ℕ)
    → parent.vm_map ≡ some pmap
    → (fork_clone m parent child k child_pml4).0 ≡ ok
    → let (_, parent', child', _) = fork_clone m parent child k child_pml4 in
      (parent'.vm_map ≡ some (record pmap { entries = map mark_cow pmap.entries }))
      × (child'.vm_map
          ≡ some (record {
            addr = (map_alloc m k).0;
            pml4_phys = child_pml4;
            entries = map mark_cow pmap.entries;
          }))
      × (parent'.address_space ≡ parent.address_space)
      × (child'.address_space ≡ child.address_space)
      × (parent.address_space ≢ 0)
unfolding fork_clone
fork_clone-maps m parent child pmap k child_pml4 is_map h =
    let c = clone-marks m parent.address_space child_pml4 0 (map_alloc m k).1 pmap.entries in
    ground (arith, is_map, h, c)

-- Take a vm_task_fork_clone that replies RDNX_OK, and an entry of the parent's with an object, be
-- it private or not. Later, when a page of the object is neither resident nor mapped (the object's
-- array having an entry for each of its pages), first the parent and then the child, which has a
-- page table, write to that page, as users and as the entry's protection allows; the allocation of
-- a page succeeds, and the child's fault finds any machine on which the page is not mapped. Then
-- both faults map one and the same physical page, with PTE_RW, each in its own page table: child
-- and parent share what they write.
pub fork_clone-shares :
    (m : Machine) (parent child : Task) (pmap : VmMap) (k0 : Objects m) (child_pml4 : ℕ)
    (k : Objects m) (hw : m.State) (addr err_code : ℕ) (e : Entry) (o : VmObject)
    → parent.vm_map ≡ some pmap
    → (fork_clone m parent child k0 child_pml4).0 ≡ ok
    → child.address_space ≢ 0
    → lookup pmap.entries (align_down addr) ≡ some e
    → IsGranted addr err_code e.prot
    → e.object ≢ 0
    → k.object e.object ≡ some o
    → IsAbsent o (object_page e (align_down addr))
    → (m.alloc_page k.refs.hw).0 ≢ 0
    → Unmapped m k.refs.hw (align_down addr)
    → Unmapped m hw (align_down addr)
    → let (_, parent', child', _) = fork_clone m parent child k0 child_pml4 in
      let va = align_down addr in
      let phys = (m.alloc_page k.refs.hw).0 in
      let flags = pte_flags_from_prot e.prot in
      let (rc1, k1) = fault_handle m parent' k addr err_code in
      let later : Objects m = record k1 { refs = record (k1.refs) { hw = hw } } in
      let (rc2, k2) = fault_handle m child' later addr err_code in
      (h1 : m.State) × (h2 : m.State) × ((rc1, k1.refs.hw)
        ≡ m.map_page h1 parent.address_space va phys flags)
      × ((rc2, k2.refs.hw) ≡ m.map_page h2 child.address_space va phys flags)
      × (has_bit flags pte_rw ≡ true)
unfolding access_denied
fork_clone-shares m parent child pmap k0 child_pml4 k hw addr err_code e o is_map forked_ok space
      found granted ne at absent_page got free1 free2 =
    let (_, parent', child', _) = fork_clone m parent child k0 child_pml4 in
    let (pm, cm, ps, cs, pne) =
      fork_clone-maps m parent child pmap k0 child_pml4 is_map forked_ok in
    let (f, same) = marked_flags e in
    let e' : Entry = record e { flags = f } in
    let found' : lookup (map mark_cow pmap.entries) (align_down addr) ≡ some e' =
      lookup-marked pmap.entries (align_down addr) e found ∙ ap some same in
    let first =
      fault_handle-fresh m parent' (record pmap { entries = map mark_cow pmap.entries }) k addr
        err_code e' pm (λ z. pne (sym ps ∙ z)) granted found' free1 o ne at absent_page got in
    let k1 = (fault_handle m parent' k addr err_code).1 in
    let later : Objects m = record k1 { refs = record (k1.refs) { hw = hw } } in
    let stays : get_resident_page m later e.object (object_page e (align_down addr))
        ≡ (m.alloc_page k.refs.hw).0 =
      unfold get_resident_page in first.1 in
    let second =
      fault_handle-resident m child' _ later addr err_code e' cm (λ z. space (sym cs ∙ z)) granted
        found' free2 (λ z. got (sym stays ∙ z)) in
    (
      (fresh_page m e' (align_down addr) (object_page e (align_down addr)) k).1.refs.hw,
      (retain m later.refs (m.alloc_page k.refs.hw).0).1.hw,
      first.0
          ∙ ap
              (λ x.
                m.map_page
                  (fresh_page m e' (align_down addr) (object_page e (align_down addr)) k).1.refs.hw
                  x (align_down addr) (m.alloc_page k.refs.hw).0 (pte_flags_from_prot e.prot))
              ps,
      second
          ∙ ap₂
              (λ x phys.
                m.map_page (retain m later.refs phys).1.hw x (align_down addr) phys
                  (pte_flags_from_prot e.prot))
              cs stays,
      writable e.prot (ground (arith, granted.write, granted.allowed)),
    )
