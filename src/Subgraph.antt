-- ===== src/Subgraph.antt =====
-- The subgraph's event handlers (packages/nouns-subgraph/src).
pub mod Table
pub mod Schema
pub mod Store
pub mod Memory
pub mod Helpers
pub mod Views
pub mod Token
pub mod Dao
pub mod Auctions
mod Tests
