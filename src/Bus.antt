-- ===== src/Bus.antt =====
-- internal/bus/bus.go, the message router.
pub mod Message
pub mod Waker
pub mod Router
