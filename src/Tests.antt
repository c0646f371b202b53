-- ===== src/Tests.antt =====
-- Runs of the program's parts at concrete inputs, among them those of the repository's own tests,
-- and the theorems applied there.
mod Ledgers
mod Accounts
mod Households
mod Cards
mod Rules
mod Users
mod Web
mod Login
mod Amounts
mod Storage
mod Members
mod Versions
