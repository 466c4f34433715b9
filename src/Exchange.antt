-- ===== src/Exchange.antt =====
-- mdh/include/exchange and mdh/src/exchange: the exchange side of the trading system.
pub mod Core
pub mod Events
pub mod Book
pub mod Engine
pub mod Ledger
pub mod Risk
pub mod Persistence
pub mod Pipeline
pub mod Gateway
