-- ===== src/Vm/Machine.antt =====
-- The kernel services under kernel/vm: the page tables, the physical page allocator, the kernel
-- heap and the copying of bytes. kernel/vm only calls them, so they are one interface over an
-- abstract state. A pointer that may be NULL is `0`, as in the code.
use rodnix.Prelude.{ℕ, Status}

pub record Machine : Type 1 where
  pub State : Type 0
  -- paging_get_physical_pml4(pml4, va), and paging_get_physical(va) for the active address space.
  pub get_physical : State → ℕ → ℕ → ℕ
  pub get_physical_current : State → ℕ → ℕ
  -- paging_map_page_4kb_pml4(pml4, va, phys, flags), paging_unmap_page_pml4(pml4, va).
  pub map_page : State → ℕ → ℕ → ℕ → ℕ → Status × State
  pub unmap_page : State → ℕ → ℕ → State
  -- pmm_alloc_page_in_zone(PMM_ZONE_NORMAL), pmm_free_page(phys).
  pub alloc_page : State → ℕ × State
  pub free_page : State → ℕ → State
  -- kmalloc(size), kfree(ptr).
  pub kmalloc : State → ℕ → ℕ × State
  pub kfree : State → ℕ → State
  -- memset of a physical page, memcpy between two pages (dst, src), from a page to an address
  -- (address, page, bytes) and from an address to a page (page, address, bytes).
  pub zero_page : State → ℕ → State
  pub copy_page : State → ℕ → ℕ → State
  pub store_bytes : State → ℕ → ℕ → ℕ → State
  pub load_bytes : State → ℕ → ℕ → ℕ → State
