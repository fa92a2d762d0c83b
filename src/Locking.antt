-- ===== src/Locking.antt =====
-- kernel/locking: the objects on which tasks wait.
pub mod Slots
pub mod Semaphore
pub mod Mutex
pub mod Barrier
pub mod Condition
pub mod Mailbox
