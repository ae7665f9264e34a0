-- ===== src/Web.antt =====
-- internal/web: the HTTP server's decisions that do not depend on rendering.
pub mod Throttle
