-- ===== src/Launch.antt =====
-- The program that starts the nodes and reads the transactions: src/node_launch.cpp.
pub mod Shards
pub mod Ranges
pub mod Fields
pub mod Reshard
pub mod Balance
pub mod Moves
pub mod Items
pub mod Kept
pub mod Alive
pub mod Integers
pub mod Texts
pub mod Nodes
pub mod NodeNames
pub mod Main
pub mod Runs
pub mod Waits
pub mod Idle
pub mod Submitted
pub mod Console
pub mod Prompt
pub mod Agree
pub mod Input
pub mod Views
