-- ===== src/Syncer.antt =====
-- internal/syncer: the synchronization of one user, folder discovery, and the worker pool.
pub mod Discover
pub mod Errors
pub mod Copy
pub mod Index
pub mod Convergence
pub mod Incremental
pub mod Pair
pub mod Dial
pub mod Pool
pub mod User
