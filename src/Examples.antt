-- ===== src/Examples.antt =====
-- Runs of the model at concrete inputs, and the theorems applied to them.
mod Wire
mod Run
mod Trace
mod Shells
mod Witnesses
mod Policies
mod Stored
mod Recorded
mod Responses
