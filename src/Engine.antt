-- ===== src/Engine.antt =====
-- src/engine: the matching engine.
pub mod Accounts
pub mod Takers
pub mod State
pub mod Fill
pub mod Match
pub mod NewOrder
pub mod Submit
pub mod TakeStop
pub mod Cancels
pub mod Cancelled
pub mod History
pub mod Uncrossed
pub mod Modify
pub mod Ended
pub mod Trace
pub mod Loops
pub mod Total
pub mod Finish
pub mod Round
pub mod Stops
pub mod Valid
pub mod Refill
pub mod Settle
pub mod Weight
