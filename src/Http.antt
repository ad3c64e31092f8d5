-- ===== src/Http.antt =====
-- Package internal/http, and the parts of net/http that it and its callers rest on.
pub mod Header
pub mod Message
pub mod Headers
pub mod Compression
pub mod RawRequest
mod Tests
