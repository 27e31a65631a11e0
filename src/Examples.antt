-- ===== src/Examples.antt =====
-- Runs on concrete inputs of the theorems about src/era.rs and ublkfault/src/model.rs.
mod Races
mod Tracker
mod Files
mod Disks
mod Daemon
mod Thaw
mod Requests
mod Episodes
mod Scenarios
mod Passes
