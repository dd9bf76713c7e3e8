-- ===== src/Bots.antt =====
-- The bots that announce auctions and proposals (packages/nouns-bots).
pub mod Types
pub mod Cache
pub mod Texts
pub mod Handlers
pub mod Ticks
pub mod Once
pub mod Repeat
pub mod Votes
mod Tests
