-- ===== src/Tests.antt =====
-- Runs on small inputs, and each property at an input that meets its hypotheses.
mod Samples
mod Swaps
mod Diffs
mod Jobs
mod Houses
mod Groups
mod Lamps
mod Runs
mod Witnesses
