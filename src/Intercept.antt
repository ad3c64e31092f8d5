-- ===== src/Intercept.antt =====
-- The intercept gate of internal/store/intercept.go: its state, and `Hold` as a thread that the
-- scheduler moves one shared access at a time, beside the calls of the user interface.
pub mod Pending
pub mod Hold
pub mod Editing
pub mod System
mod Tests
