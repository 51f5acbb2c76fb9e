-- ===== src/Fs.antt =====
-- fs/: the directory tree, the two file systems and how the kernel mounts them.
pub mod Vfs
pub mod Relisfs
pub mod Proc
pub mod Mount
pub mod Elf
