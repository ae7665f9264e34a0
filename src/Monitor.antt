-- ===== src/Monitor.antt =====
-- internal/monitor: the workers that poll, deliver and reconcile.
pub mod Delivery
pub mod Scopes
