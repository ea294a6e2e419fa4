-- ===== src/Pages.antt =====
-- server/internal/util/pagination.go, the order of the pages that the stores read, and
-- `validateAndNormalizeLimit` of the services.
mod Limits
mod Order
pub mod Bounds
mod Examples
unfoldable pub use Limits.*
pub use Order.*
