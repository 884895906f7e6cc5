-- ===== src/Store.antt =====
-- db.py: the mirrored tables. A row holds its payload whole; the tables are one list of rows, each
-- with its table's name, in the order in which they were inserted.
pub mod Rows
pub mod Laws
pub use Rows.{
  SyncSource, from_webhook, from_backfill, from_reconcile, from_passthrough, Row, Typed, blank,
  is_at, is_live,
}
unfoldable pub use Rows.{uat, select, put_row, update_where}
