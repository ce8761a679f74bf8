-- ===== src/Fs/Node.antt =====
-- The nodes and the state of kernel/fs/vfs.c. A node is named by its address, 0 for NULL; the
-- siblings below a directory are a list.
use rodnix.Prelude.{ℕ, Bool, Option, List, ◌==◌, if◌then◌else◌}

-- `vfs_inode_t`; `addr` is its own address, and `buffer` the bytes at `data`, 0 for NULL.
pub record Inode : Type 0 where
  pub addr : ℕ
  pub flags : ℕ
  pub fs_tag : ℕ
  pub size : ℕ
  pub capacity : ℕ
  pub data_addr : ℕ
  pub buffer : ℕ → ℕ
  pub node_gen : ℕ

-- `vfs_node_t`.
pub record Node : Type 0 where
  pub name : List ℕ
  pub is_dir : Bool
  pub parent : ℕ
  pub children : List ℕ
  pub inode : Option Inode
  pub ref_count : ℕ
  pub unlinked : Bool

-- `vfs_mount_t`.
pub record Mount : Type 0 where
  pub root : ℕ
  pub mountpoint : ℕ

-- `vfs_cache_entry_t`.
pub record CacheEntry : Type 0 where
  pub path : List ℕ
  pub node : ℕ
  pub gen : ℕ
  pub node_gen : ℕ

-- The name space: the nodes, `none` at an address without one, the mounts and the root.
pub record Tree : Type 0 where
  pub node : ℕ → Option Node
  pub mounts : List Mount
  pub root : ℕ

-- The globals of vfs.c.
pub record Vfs : Type 0 where
  pub tree : Tree
  pub ready : Bool
  pub cache : List CacheEntry
  pub cache_gen : ℕ
  pub cache_rr : ℕ

-- A write at one address.
abbrev pub put {ℓ} : {A : Type ℓ} → (ℕ → A) → ℕ → A → ℕ → A
put f p v q = if p == q then v else f q

-- `vfs_file_t`.
pub record File : Type 0 where
  pub node : ℕ
  pub pos : ℕ
  pub writable : Bool
