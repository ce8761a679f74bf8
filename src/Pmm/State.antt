-- ===== src/Pmm/State.antt =====
-- The state of kernel/arch/x86_64/pmm.c. A bit of the bitmap is true for a used page; the memory is
-- read at physical addresses, and a zone is PMM_ZONE_LOW, PMM_ZONE_NORMAL or PMM_ZONE_MMIO as in C,
-- 0, 1 or 2.
use rodnix.Prelude.{ℕ, Bool, List, ◌==◌, if◌then◌else◌}

-- `pmm_free_range_t`, in pages, and `pmm_region_t`, in bytes.
pub record Range : Type 0 where
  pub start : ℕ
  pub count : ℕ

pub record Region : Type 0 where
  pub base : ℕ
  pub length : ℕ

-- `pmm_page_desc_t`; `is_used` is its state.
pub record PageDesc : Type 0 where
  pub zone : ℕ
  pub is_used : Bool

-- An entry of `zones`; `free_ranges` is the array up to `free_range_count`.
pub record Zone : Type 0 where
  pub total_pages : ℕ
  pub free_pages : ℕ
  pub used_pages : ℕ
  pub free_ranges : List Range

-- `struct pmm_state`.
pub record Pmm : Type 0 where
  pub total_pages : ℕ
  pub free_pages : ℕ
  pub used_pages : ℕ
  pub bitmap_size : ℕ
  pub bitmap : ℕ → Bool
  pub memory_start : ℕ
  pub memory_end : ℕ
  pub pages : ℕ → PageDesc
  pub pages_count : ℕ
  pub zone : ℕ → Zone
  pub usable_regions : List Region
  pub reserved_regions : List Region
  pub memory : ℕ → ℕ

-- PAGE_SIZE, PMM_MAX_FREE_RANGES, PMM_MAX_REGIONS, PMM_BITMAP_MAX_SIZE and PMM_ZONE_COUNT.
abbrev pub page_size : ℕ
page_size = 4096

abbrev pub max_free_ranges : ℕ
max_free_ranges = 128

abbrev pub max_regions : ℕ
max_regions = 128

abbrev pub bitmap_max_size : ℕ
bitmap_max_size = 0x100000

abbrev pub zone_count : ℕ
zone_count = 3

abbrev pub low : ℕ
low = 0

abbrev pub normal : ℕ
normal = 1

abbrev pub mmio : ℕ
mmio = 2

-- A write at one place.
abbrev pub put {ℓ} : {A : Type ℓ} → (ℕ → A) → ℕ → A → ℕ → A
put f i v j = if i == j then v else f j

-- The free list of a zone.
abbrev pub set_ranges : Pmm → ℕ → List Range → Pmm
set_ranges s z rs = record s { zone = put s.zone z (record (s.zone z) { free_ranges = rs }) }
