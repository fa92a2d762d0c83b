-- ===== src/Libs.antt =====
-- libs: the kernel's library.
pub mod Strings
pub mod Links
