-- ===== src/Exchange/Engine.antt =====
-- mdh/{include,src}/exchange/matching/matching_engine.{hpp,cpp}: the matching engine.
pub mod State
pub mod Match
pub mod Process
pub mod Cases
pub mod Sequence
pub mod Progress
pub mod Fills
pub mod Limits
pub mod Rejects
mod Tests
