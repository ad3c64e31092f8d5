-- ===== src/Events.antt =====
-- Package internal/events: the events (events.go) and the bus that hands them to the registered
-- handlers (bus.go).
pub mod Event
pub mod Bus
mod Tests
