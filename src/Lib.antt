-- ===== src/Lib.antt =====
-- A model of the trading system under mdh/ and the theorems about it.
--
-- The exchange (mdh/include/exchange, mdh/src/exchange) takes commands one at a time on one thread.
-- MatchingEngine keeps one MatchingBook per instrument and a directory of the orders that rest; a
-- command changes them and emits numbered events into a sink. Commands are journaled, events are
-- published to a market-data feed and clients talk to a gateway, each in a binary format of its own
-- over the big-endian bytes of mdh/include/common/byte_io.hpp. A trader rebuilds the books of the
-- exchange from the feed, live or from a file (mdh/include/book, mdh/src/book, mdh/src/replay).
-- LimitOrderBook/ is a program of its own: a book that matches, behind a queue of commands.
--
-- Files:
--   Base              words, integers, maps, arrays and lists that every part uses
--   Types             mdh/include/common/types.hpp
--   Exchange/Core     mdh/include/exchange/core/types.hpp, commands.hpp and matching/resting_order.hpp
--   Exchange/Events   mdh/include/exchange/core/events.hpp
--   Exchange/Book     mdh/src/exchange/matching/matching_book.cpp: Bits, Index and Overflow are the
--                     ladder of price levels with its bitmap and the map beside it, Book the slab and
--                     the operations, Orders what the operations do to the orders in the slab
--   Exchange/Engine   mdh/src/exchange/matching/matching_engine.cpp: State is the engine, Match the
--                     matching loop, Process the three handlers; Cases holds the case rules that the
--                     files Sequence, Progress, Fills, Limits and Rejects apply
--   Exchange/Ledger   mdh/src/exchange/ledger/ledger.cpp; it reads the engine's events; Cash is about
--                     the cash of each account, Total about that of all together
--   Exchange/Risk     mdh/src/exchange/risk/risk_engine.cpp, risk_gated_engine.cpp: the checks ahead of the
--                     engine, with the ledger behind it; Checks is about what they accept,
--                     Gated about what becomes of a command
--   Exchange/Pipeline mdh/src/exchange/sequencing: the numbering of commands and the queue to the matching
--                     thread
--   Exchange/Persistence  mdh/src/exchange/persistence/command_journal_writer.cpp, command_journal_reader.cpp,
--                     command_replay.cpp; Recovery is about a whole session
--   Exchange/Gateway  mdh/src/exchange/gateway/order_entry_gateway.cpp: Reports translates, Sessions binds
--                     and claims, Routing sends events to connections, Reader cuts the stream; Privacy,
--                     PrivateRouting, PrivateSessions and PrivateSteps are about whose reports go where
--   Queue             mdh/include/common/spsc_queue.hpp, dropping_queue.hpp: Threads is the two threads
--                     as micro-steps, Places and FifoSteps lead up to Fifo, Bounded the list that the ring buffer stands for
--   Trader/Oms        mdh/src/trader/oms/order_management_system.cpp: Changes, Submissions, Requests and
--                     Replacements are about its calls, Tracked and TrackedCalls lead up to Consistent, which is
--                     about all of them
--   Trader/Positions  mdh/src/trader/positions/position_tracker.cpp
--   Trader/Risk       mdh/src/trader/risk/trader_risk_engine.cpp, trader_risk_gated_oms.cpp
--   Feed/Sequence     mdh/src/common/sequence_validator.cpp, mdh/include/net/packet_sequence_tracker.hpp
--   Feed/Packet       mdh/src/net/packet.cpp
--   Feed/Book         mdh/src/book/order_book.cpp and mdh/include/book/price_level.hpp: the book that a
--                     feed rebuilds. Levels is about the map of levels, Changed, Removal and Placement about
--                     one change, Refines about calls against a table of orders, Totals and Best about
--                     the aggregates and the best prices
--   Feed/Manager      mdh/src/book/book_manager.cpp
--   Feed/Publisher    mdh/src/exchange/market_data/market_data_publisher.cpp
--   Feed/Replay       mdh/src/replay/replay_engine.cpp, event_file_reader.cpp, event_file_writer.cpp
--   Feed/Published    the publisher, the file and the replay together
--   Lob               LimitOrderBook/src/price_level.cpp, order_book.cpp; Engine is matching_engine.cpp with the
--                     queue of LimitOrderBook/include/spsc_queue.hpp
--   Wire/Bytes        mdh/include/common/byte_io.hpp
--   Wire/Codes        the one-byte codes of the enumerations
--   Wire/Frame        the framing that the three decoders share
--   Wire/FileReader   what event_file_reader.cpp and command_journal_reader.cpp share
--   Wire/Journal      mdh/src/exchange/persistence/command_encoder.cpp, command_decoder.cpp
--   Wire/MarketData   mdh/src/protocol/encoder.cpp, decoder.cpp
--   Wire/OrderEntry   mdh/src/protocol/order_entry/encoder.cpp, decoder.cpp; for each format Payloads is about
--                     its parts and RoundTrip about whole messages
--
-- A function of the source is a function of the same name. A method takes the object and gives it
-- back changed; the sink is the list of events emitted so far, the newest first; a pointer that may be
-- null is an Option. Ids, quantities and counters are natural numbers, and a counter that is increased
-- wraps at 2 ^ 64. A price is an integer, so no overflow of signed arithmetic is modelled. An array
-- is its size and a function from positions; out of its bounds, where the source has undefined
-- behaviour, it holds what the function gives.
--
-- The loop of match_and_rest runs on fuel of the quantity that is left to trade, which is enough since
-- every round trades at least one unit as long as the orders that rest have something left. The loops
-- over a level's queue and over levels run on one more than the size of the slab, where every order of
-- a queue has a slot and every level holds an order. The doubling of a capacity runs 64 times, after
-- which the source's word has overflowed; the reader's loop runs as often as there are bytes, since
-- every frame takes some.
--
-- Memory pools and reserved capacity do not show and are left out. Sockets, files, the starting and
-- stopping of threads and the user interface are not modelled, nor are the trader's
-- strategies, the snapshots of a replay, and the exercises outside mdh/ and LimitOrderBook/. A handler of the
-- gateway and a locked section of the trader are one step; what a call of the trader's sender answers
-- is a parameter.
pub mod Base
pub mod Exchange
pub mod Feed
pub mod Lob
pub mod Queue
pub mod Trader
pub mod Types
pub mod Wire
