-- ===== src/TinyLibc.antt =====
-- tiny_libc: the library of user programs.
pub mod Atoi
