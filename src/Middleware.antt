-- ===== src/Middleware.antt =====
-- server/internal/middleware: what stands between a request and its handler.
mod Gates
mod Limiter
pub mod Passing
pub mod Window
mod Examples
unfoldable pub use Gates.*
unfoldable pub use Limiter.*
