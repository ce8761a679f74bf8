-- ===== src/Tests/Machine.antt =====
-- A machine to run kernel/vm on: an association list for the page tables of every address space,
-- and a counter that hands out pages and heap blocks.
use rodnix.Prelude.{ℕ, ◌+◌, ◌*◌, ◌&&◌, List, [], ◌∷◌, ◌==◌, if◌then◌else◌, ok}
use rodnix.Vm.Machine.{Machine}

pub record Pte : Type 0 where
  pub pml4 : ℕ
  pub va : ℕ
  pub phys : ℕ
  pub flags : ℕ

pub record Toy : Type 0 where
  pub next : ℕ
  pub ptes : List Pte

abbrev pub walk : List Pte → ℕ → ℕ → ℕ
walk [] pml4 va = 0
walk (p ∷ ps) pml4 va = if (p.pml4 == pml4) && (p.va == va) then p.phys else walk ps pml4 va

abbrev pub forget : List Pte → ℕ → ℕ → List Pte
forget [] pml4 va = []
forget (p ∷ ps) pml4 va =
    if (p.pml4 == pml4) && (p.va == va) then forget ps pml4 va else p ∷ forget ps pml4 va

abbrev pub enter_pte : Toy → ℕ → ℕ → ℕ → ℕ → Toy
enter_pte s pml4 va phys flags = record s {
  ptes = record { pml4 = pml4; va = va; phys = phys; flags = flags } ∷ forget s.ptes pml4 va;
}

-- The active address space is 0x5000.
abbrev pub toy : Machine
toy = record {
  State = Toy;
  get_physical = λ s pml4 va. walk s.ptes pml4 va;
  get_physical_current = λ s va. walk s.ptes 0x5000 va;
  map_page = λ s pml4 va phys flags. (ok, enter_pte s pml4 va phys flags);
  unmap_page = λ s pml4 va. record s { ptes = forget s.ptes pml4 va };
  alloc_page = λ s. (0x10_0000 + s.next * 4096, record s { next = s.next + 1 });
  free_page = λ s phys. s;
  kmalloc = λ s size. (0x8000_0000 + s.next * 4096, record s { next = s.next + 1 });
  kfree = λ s p. s;
  zero_page = λ s phys. s;
  copy_page = λ s to from. s;
  store_bytes = λ s at phys n. s;
  load_bytes = λ s phys at n. s;
}
