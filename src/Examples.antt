-- ===== src/Examples.antt =====
-- Runs of the program on concrete data, and the properties at those data.
pub mod Data
mod Transactions
mod Services
mod Pools
mod Interfaces
mod Starts
