-- ===== src/Benchmarks.antt =====
-- The load generator: the statistics of benchmarks/benchmark_utils.py and the choice of requests of
-- benchmarks/generator/request_generator.py.
pub mod Stats
pub mod Trace
pub mod Windows
pub mod Totals
pub mod Requests
pub mod Saved
pub mod Timed
pub mod Sessions
mod Tests
