-- ===== src/Weather.antt =====
-- The weather analytics, section2/q2_grpc: the accumulator that workers and the coordinator share
-- (common.py), the report, the data set, the worker, the coordinator and the programs around them.
pub mod Floats
pub mod Data
pub mod Accum
pub mod Wire
pub mod Report
pub mod Dataset
pub mod Worker
pub mod Coordinator
pub mod Oracle
pub mod Streamer
pub mod QueryLoad
pub mod Dashboard
pub mod Bench
mod Tests
