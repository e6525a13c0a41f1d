-- ===== src/Lib.antt =====
-- A model of the limit order book engine (C++), with the theorems that hold of it.
--
-- The program. An exchange thread owns one matching engine per symbol. A message goes through
-- ExchangeManager::process to `MatchingEngine::submit`, which works on an order book of two sorted
-- maps of price levels and a map from ids to orders; the result is translated into events, which go
-- through rings to the publisher and to the replay logger.
--
-- Around this stand the sources of events, a generator and a reader of CSV files, the replay tool
-- that feeds a file to one engine, and the translation of messages and events from and to JSON.
--
-- The files.
--   Prelude: Boolean tests, lists, texts as bytes, integers, 64-bit arithmetic, and `Run`, the
--     outcome of code that may fault. A fault stands for undefined behaviour of the C++: a null
--     `Order*` that is dereferenced, `front` or `pop_front` of an empty deque, or an index out of
--     range.
--   Core: src/core (order.hpp, enums.hpp, trade.hpp, event.hpp).
--   Level: src/book/price_level.hpp and .cpp. Level/Fifo has the abstract queue of live ids,
--     Level/Refine the operations against it, Level/Requeue a removal after a reinsertion.
--   OrderedMap: std::map as a list of pairs sorted by the key.
--   Book: src/book/order_book.hpp and .cpp. Book/Sound and Book/Coherent hold the invariant: both
--     sides sorted without empty levels, and the queues and the id map telling the same story.
--   Engine: src/engine/matching_engine.cpp. Engine/Fill, Match, NewOrder and Submit are the methods
--     (`process_new_order`, `match_limit`, `execute_fill`, ...), Engine/State the class; the other
--     files are proofs, Engine/Trace with the abstract machine that they refine: single changes,
--     fills, and their sequences, and Engine/Takers with the orders that may make them.
--   SpscQueue: src/core/spsc_queue.hpp, and the dropping ring of src/gateway and src/logging.
--     SpscQueue/Threads takes push and pop apart into their accesses to shared memory, for two
--     threads in any order.
--   Gateway: src/events and src/gateway/exchange_manager.cpp, the work of the exchange thread, and
--     the loops that empty the rings of event_dispatcher.cpp and replay_logger.cpp. Gateway/Service
--     is the running service, its five threads (receiver, exchange, publisher, writer, and the
--     caller of `stop`) in any order, an operation on a ring being one step.
--   Feed: src/feed/synthetic_gen.cpp and csv_replay.cpp. The draws of the generator and the
--     readings of numbers from text are parameters.
--   Serialization: src/serialization/serializer.cpp, over an interface of the JSON library.
--   Snapshot: src/snapshot/snapshot.cpp, over an interface of the bytes of the structs.
--   Tools: tools/replay.cpp, its arguments, its loop, its comparison and its main.
--   ExchangeMain: the arguments of src/exchange_main.cpp.
--   Benchmarks: benchmarks/scenarios.hpp, benchmark_runner.cpp and bench_main.cpp: the loop that times
--     the engine on what the generator gives.
--   Metrics: src/metrics/histogram.hpp, and metrics.hpp with its counters.
--   Logging: src/logging/logger.cpp, the size of its ring, the records and the writer.
--   Tests: concrete runs.
--
-- State and mutation. A method that changes an object takes and returns it. A pointer into the id
-- map or to a level is an update of the one entry that it points to. What the code writes once for
-- the bids and once for the asks is written once over a side. A method that calls
-- `process_new_order` while it runs (through the stop triggers) takes that call as an argument.
--
-- Numbers. uint64_t is a natural number; sums wrap by `add64`, differences by `sub64`. Prices are
-- unbounded integers: the sums of two prices in `mid_price` and `spread` are those of int64_t as
-- long as they lie in its range.
--
-- Fuel. `process_new_order` takes one fuel for the depth of its calls and the rounds of its loops.
-- `engine_weight` measures what the resting orders and the pending stops can still trade; fuel above
-- the weight of the engine, the load of the new order and one is enough, since every round of a
-- loop and every triggered stop lowers it. The loop that rounds the logger's size up takes 32
-- tests. A benchmark's loop has one test for each event and one more; its generator is made for
-- 10 ^ 8 events.
--
-- Not modelled: the JSON library itself and the sockets, weak memory orders (the steps of the
-- threads are on one memory), a start that fails, the opening of files, failing writes and what is
-- printed, the random engine and its distributions (their draws are arguments), clocks (their
-- readings are arguments). Histories with modifies are covered one modify at a time.
pub mod Prelude
pub mod Core
pub mod OrderedMap
pub mod Level
pub mod Benchmarks
pub mod Book
pub mod SpscQueue
pub mod Engine
pub mod Feed
pub mod Gateway
pub mod Serialization
pub mod Snapshot
pub mod Tools
pub mod ExchangeMain
pub mod Metrics
pub mod Logging
mod Tests
