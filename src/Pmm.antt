-- ===== src/Pmm.antt =====
-- kernel/arch/x86_64/pmm.c: the physical page allocator.
pub mod State
pub mod Ranges
pub mod Bits
pub mod Alloc
pub mod Regions
pub mod Init
pub mod Cover
pub mod Lists
pub mod Solid
pub mod Invariant
pub mod Taken
pub mod Given
pub mod RoundTrip
pub mod Listing
pub mod Rebuild
pub mod Reserve
pub mod Run
pub mod Contiguous
