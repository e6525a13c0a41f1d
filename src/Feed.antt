-- ===== src/Feed.antt =====
-- src/feed: where the events of an engine come from.
pub mod Synthetic
pub mod Csv
