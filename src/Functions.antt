-- ===== src/Functions.antt =====
-- packages/nouns-webapp/functions: the web application's serverless functions, which answer with the
-- nouns of the subgraph, filtered or regrouped. A body is a value here, not its JSON text.
pub mod Nouns
pub mod Votes
pub mod Owners
pub mod Grouping
pub mod Signatures
pub mod Verdicts
mod Tests
