-- ===== src/Lists.antt =====
-- Lists of users: server/internal/store/list_store.go in `Store`, server/internal/service/list_service.go
-- in `Service`. The paged members and the list feed are left out.
mod Store
mod Service
pub mod Owners
pub mod Members
mod Examples
unfoldable pub use Store.*
unfoldable pub use Service.*
