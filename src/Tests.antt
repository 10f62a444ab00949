-- ===== src/Tests.antt =====
-- The theorems at concrete scripts and values, over the concrete matcher.
mod Buffers
mod Events
mod Files
mod Intervals
mod Scheduling
mod Scripts
mod Sources
mod Values
mod Waits
mod Commands
mod Connections
mod Delays
