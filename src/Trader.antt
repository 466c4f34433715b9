-- ===== src/Trader.antt =====
-- mdh/include/trader and mdh/src/trader: the trader's own view of its orders and positions, and its
-- checks ahead of the exchange's.
pub mod Oms
pub mod Positions
pub mod Risk
