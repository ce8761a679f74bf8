-- ===== src/Fs.antt =====
-- kernel/fs/vfs.c: paths, nodes, the lookup cache and files.
pub mod Path
pub mod Node
pub mod Lookup
pub mod Walk
pub mod Coherent
pub mod Host
pub mod Store
pub mod File
pub mod Io
pub mod Names
pub mod Capacity
pub mod Buffer
pub mod Contents
pub mod ReadBack
pub mod Resize
pub mod Changes
