-- ===== src/Vm/Range.antt =====
-- kernel/vm/vm_map.c: page alignment and the checks on address ranges.
use rodnix.Prelude.{ℕ, ◌-◌, ◌%◌, Bool, true, false, ◌||◌, ltb, leb, if◌then◌else◌, add64}

abbrev pub page_size : ℕ
page_size = 0x1000

-- VM_USER_MIN, VM_USER_MAX, VM_DEFAULT_MMAP and ARCH_KERNEL_VIRT_BASE of x86_64.
abbrev pub user_min : ℕ
user_min = 0x1000

abbrev pub user_max : ℕ
user_max = 0x8000_0000

abbrev pub default_mmap : ℕ
default_mmap = 0x6000_0000

abbrev pub kernel_virt_base : ℕ
kernel_virt_base = 0xFFFF_FFFF_8000_0000

-- `v & ~(VM_PAGE_SIZE - 1)` clears the twelve low bits.
abbrev pub align_down : ℕ → ℕ
align_down v = v - v % page_size

abbrev pub align_up : ℕ → ℕ
align_up v = align_down (add64 v (page_size - 1))

unfoldable pub range_valid : ℕ → ℕ → Bool
range_valid start end =
    if ltb start user_min || leb end start || ltb user_max end
    then false
    else if leb kernel_virt_base start || leb kernel_virt_base end
    then false
    else true
