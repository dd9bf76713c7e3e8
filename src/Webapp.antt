-- ===== src/Webapp.antt =====
-- The web application's state (packages/nouns-webapp/src).
pub mod Events
pub mod Auction
pub mod Display
pub mod Filters
pub mod Slices
pub mod Voting
pub mod Profile
pub mod Titles
pub mod Locales
pub mod Subscriber
pub mod Timers
pub mod Bidding
pub mod Shuffle
pub mod Drafts
pub mod Proposals
pub mod Logs
mod Tests
mod PageTests
