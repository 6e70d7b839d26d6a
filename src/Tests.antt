-- ===== src/Tests.antt =====
-- Concrete platforms, channels and messages that the theorems are applied to.
mod Toy
mod Table
mod Channel
mod Values
mod Runs
mod Exchanges
mod Beginnings
mod Installation
mod Records
mod Withdrawal
mod Virtual
mod Parties
mod Memory
