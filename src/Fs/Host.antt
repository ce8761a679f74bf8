-- ===== src/Fs/Host.antt =====
-- What kernel/fs/vfs.c calls: the kernel heap, the console, the block devices and ext2.
use rodnix.Prelude.{ℕ, ℤ, Bool, Option, List, Status, Result}

-- `stale` is what memory from kmalloc holds at an offset. `bdev_sector_size` is none for a device
-- that is not there. A console call replies the count, with the bytes of a read, or a code.
pub record Host : Type 1 where
  pub State : Type 0
  pub kmalloc : State → ℕ → ℕ × State
  pub kfree : State → ℕ → State
  pub stale : State → ℕ → ℕ → ℕ
  pub tty_read : State → ℕ → Bool → Result (ℤ × List ℕ) × State
  pub tty_write : State → List ℕ → Result ℤ × State
  pub bdev_sector_size : State → List ℕ → Option ℕ
  pub bdev_read : State → List ℕ → ℕ → Status × List ℕ × State
  pub bdev_write : State → List ℕ → ℕ → List ℕ → Status × State
  pub ext2_resize : State → ℕ → ℕ → Status × State
  pub ext2_writeback : State → ℕ → ℕ → List ℕ → ℕ → Status × State
