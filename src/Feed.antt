-- ===== src/Feed.antt =====
-- mdh/include/common/sequence_validator.hpp and mdh/include/net: the receiving end of the market-data
-- feed.
pub mod Sequence
pub mod Packet
pub mod Book
pub mod Manager
pub mod Publisher
pub mod Replay
pub mod Published
mod Tests
