-- ===== src/Vm/Cow.antt =====
-- Copy on write: what the fork writes into the page tables.
use rodnix.Prelude.{
  ℕ, zero, suc, ◌+◌, ◌≡◌, true, false, arith, inl, inr, Bool-cases, Option-cases, ◌==◌, is_ok,
}
use rodnix.Vm.Machine.{Machine}
use rodnix.Vm.PageRef.{Refs, find, add_new, retain}
use rodnix.Vm.Range.{align_down, page_size}
use rodnix.Vm.Map.{has_bit, prot_write}
use rodnix.Vm.Life.{clone_pages, pte_flags_from_prot, without_write}

-- The writable bit of page table flags, PTE_RW.
abbrev pub pte_rw : ℕ
pte_rw = 2

read_only : (prot : ℕ) → has_bit (pte_flags_from_prot (without_write prot)) pte_rw ≡ false
unfolding pte_flags_from_prot
read_only prot = ground arith

pub writable :
    (prot : ℕ) → has_bit prot prot_write ≡ true → has_bit (pte_flags_from_prot prot) pte_rw ≡ true
unfolding pte_flags_from_prot
writable prot h = ground arith

-- The machine after a kmalloc for a page reference is as good as before.
retain-keeps :
    (m : Machine) (P : m.State → Type 0) (r : Refs m) (phys : ℕ)
    → ((hw : m.State) (size : ℕ) → P hw → P (m.kmalloc hw size).1)
    → P r.hw
    → P (retain m r phys).1.hw
unfolding retain add_new
retain-keeps m P r phys alloc h = elim (Bool-cases (phys == 0)) [
  | inl z ↦ rw z h
  | inr z ↦ rw z (elim (Option-cases (find phys r.nodes)) [
    | inr (c, f) ↦ rw f h
    | inl f ↦ rw f (elim (Bool-cases ((m.kmalloc r.hw 24).0 == 0)) [
      | inl q ↦ rw q (alloc r.hw 24 h)
      | inr q ↦ rw q (alloc r.hw 24 h)
    ])
  ])
]

-- The page loop of a fork writes no writable page of a copy-on-write entry into either page
-- table: what every mapping without PTE_RW and every allocation keeps, the whole loop keeps.
pub clone_pages-read_only :
    (m : Machine) (P : m.State → Type 0) (prot parent_pml4 child_pml4 va n : ℕ) (r : Refs m)
    → ((hw : m.State) (pml4 at phys flags : ℕ)
        → has_bit flags pte_rw ≡ false
        → P hw
        → P (m.map_page hw pml4 at phys flags).1)
    → ((hw : m.State) (size : ℕ) → P hw → P (m.kmalloc hw size).1)
    → P r.hw
    → P (clone_pages m true prot parent_pml4 child_pml4 va n r).1.hw
unfolding clone_pages
clone_pages-read_only m P prot parent_pml4 child_pml4 va zero r mapping alloc h = h
clone_pages-read_only m P prot parent_pml4 child_pml4 va (suc n) r mapping alloc h =
    let phys = align_down (m.get_physical_current r.hw va) in
    let flags = pte_flags_from_prot (without_write prot) in
    let c = m.map_page r.hw child_pml4 va phys flags in
    let p1 = mapping r.hw child_pml4 va phys flags (read_only prot) h in
    let r1 = (retain m (record r { hw = c.1 }) phys).1 in
    let p2 = retain-keeps m P (record r { hw = c.1 }) phys alloc p1 in
    let hw2 = (m.map_page r1.hw parent_pml4 va phys flags).1 in
    let p3 = mapping r1.hw parent_pml4 va phys flags (read_only prot) p2 in
    let rest = λ (r' : Refs m) (p : P r'.hw).
      clone_pages-read_only m P prot parent_pml4 child_pml4 (va + page_size) n r' mapping alloc p in
    elim (Bool-cases (phys == 0)) [
      | inl z ↦ rw z (rest r h)
      | inr z ↦ rw z (elim (Bool-cases (is_ok c.0)) [
        | inl o ↦ rw o (rest (record r1 { hw = hw2 }) p3)
        | inr o ↦ rw o p1
      ])
    ]
