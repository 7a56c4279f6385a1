-- ===== src/Weather/Tests.antt =====
-- Concrete runs of the weather programs, over whole numbers with two infinities as floats.
mod Numbers
mod Runs
mod Queries
mod Bench
