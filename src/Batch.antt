-- ===== src/Batch.antt =====
-- shiroclient/batch/batch.go: a driver that polls for requests, and the ticker that controls it.
pub mod Driver
pub mod Tick
pub mod Ticker
