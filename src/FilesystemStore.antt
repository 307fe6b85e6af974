-- ===== src/FilesystemStore.antt =====
-- src/filesystem_store.rs: a `KVStore` over the file system. The calls of one thread: the counts
-- in `locks` may hold references of other threads, and no guard is waited for.
-- `alphabet` and `max_len` are LDK's KVSTORE_NAMESPACE_KEY_ALPHABET and
-- KVSTORE_NAMESPACE_KEY_MAX_LEN; `debug` says whether `debug_assert!` is compiled in.
pub mod Names
pub mod Gc
pub mod Checks
pub mod Complete
pub mod Remove
pub mod Write
pub mod Requests
pub mod Refinement
pub mod Distinct
pub mod Temporary
pub mod Threads
pub mod Interleaved
pub mod Atomic
pub mod Paths
pub mod Locks
pub mod Io
unfoldable pub use Names.*
unfoldable pub use Locks.*
unfoldable pub use Io.*
