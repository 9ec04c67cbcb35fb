-- ===== src/Examples.antt =====
-- Concrete decimals, a database in memory and runs of the program on them.
mod Decimals
mod Memory
mod Payments
mod Values
mod Network
mod Rounds
mod Ledger
mod Shared
mod OnChain
mod Services
mod Failures
mod Documents
mod Requests
mod Storage
mod Tokens
mod Columns
