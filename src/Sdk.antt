-- ===== src/Sdk.antt =====
-- The image codec of the SDK (packages/nouns-sdk/src/image).
pub mod Text
pub mod Hex
pub mod Image
pub mod Svg
pub mod Collection
mod Tests
