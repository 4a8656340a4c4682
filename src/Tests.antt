-- ===== src/Tests.antt =====
-- Runs at concrete inputs, and the theorems applied to them.
mod Wires
mod Indexing
mod Leases
mod Prices
mod Admissions
mod Services
mod Quotes
mod Markets
