-- ===== src/Contracts.antt =====
-- packages/nouns-contracts: the tasks that deploy the contracts and fill the descriptor.
pub mod Deploy
pub mod Expected
pub mod Chunks
pub mod Populate
pub mod Filled
mod Tests
