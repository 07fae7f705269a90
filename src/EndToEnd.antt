-- ===== src/EndToEnd.antt =====
-- The services over the storages: internal/services/shortener and
-- internal/services/resolver with internal/storage, as internal/app joins them.
pub mod Links
pub mod Tests
pub mod Deletion
pub mod Batch
pub mod Ownership
pub mod Requests
pub mod Lifecycle
pub mod Ending
pub mod Transports
