-- ===== src/Http.antt =====
-- The HTTP transport (internal/http).
pub mod Tests
pub mod Writer
pub mod Replies
pub mod Handlers
pub mod Server
