-- ===== src/Wire.antt =====
-- The wire and journal formats of mdh/: big-endian bytes and the codecs built on them.
pub mod Bytes
pub mod Frame
pub mod FileReader
pub mod Codes
pub mod Journal
pub mod JournalPayloads
pub mod JournalRoundTrip
pub mod MarketData
pub mod MarketDataPayloads
pub mod MarketDataRoundTrip
pub mod OrderEntry
mod OrderEntryPayloads
mod OrderEntryRoundTrip
mod Tests
