-- ===== src/Http.antt =====
-- internal/httpapi/handler.go, with the middleware of internal/observability/metrics.go.
pub mod Messages
pub mod Handler
pub mod Routes
pub mod Middleware
pub mod Unknown
