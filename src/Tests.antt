-- ===== src/Tests.antt =====
-- Concrete parameters and data, and the theorems applied to them.
mod Toys
mod Trees
mod Mining
mod Coins
mod Forests
mod Clocks
mod Chains
mod Votes
mod Nodes
mod Wallets
mod Commands
mod Funds
mod Goroutines
mod Merges
mod Payments
