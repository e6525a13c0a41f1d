-- ===== src/Tests.antt =====
-- Concrete runs: test data, and each theorem at an input of it.
mod Data
mod Engine
mod Benchmarks
mod Book
mod Level
mod Gateway
mod Rings
mod Feed
mod Serialization
mod Snapshot
mod Threads
mod ExchangeMain
mod Logging
mod Service
