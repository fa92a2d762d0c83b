-- ===== src/Fs.antt =====
-- kernel/fs: the file system.
pub mod Cache
pub mod Block
pub mod Inode
pub mod Fdesc
pub mod Dcache
pub mod Path
mod Sample
