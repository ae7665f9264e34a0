-- ===== src/Store.antt =====
-- internal/store: the durable state. A table is a list of rows in the order of their ids, and a
-- transaction that fails leaves the table as it was.
pub mod Table
pub mod Metadata
pub mod Triggers
pub mod Snapshots
pub mod Sessions
pub mod Outbox
pub mod Routing
pub mod Mutes
