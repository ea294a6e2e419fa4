-- ===== src/Database.antt =====
-- The PostgreSQL tables that the stores under server/internal/store read and write, and the way
-- the services run statements on them. The schema is that of server/cmd/migrate/migrations.
--
-- A statement of a store is a function on the tables. The database itself is not part of the
-- repository: that it may fail at any statement is the list `faults`, which holds for each coming
-- statement (and each BEGIN and COMMIT) whether it fails; every store maps such a failure to
-- INTERNAL_SERVER. The SERIAL columns draw from `sequence`, which no rollback takes back, uuid.New
-- from `next_uuid`, and time.Now and NOW() read `now`.
mod Exec
mod Laws
mod Clock
unfoldable pub use Exec.*
pub use Laws.*
pub use Clock.*
