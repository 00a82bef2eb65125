-- ===== src/Store.antt =====
-- The state of `LedgerStore` of core/store.py. Its operations are in the modules below.
mod State
pub mod Spans
pub mod Apply
pub mod Compact
pub mod Queue
pub mod Lookup
pub mod Epochs
pub mod Steps
pub mod Snapshot
unfoldable pub use State.*
