-- ===== src/Examples.antt =====
-- Concrete nodes, ledgers and messages, on which the theorems of the other modules are applied.
pub mod Data
pub mod Money
pub mod Votes
pub mod Consensus
pub mod Requests
pub mod Execution
pub mod Tools
pub mod Clients
pub mod Launcher
pub mod Timers
