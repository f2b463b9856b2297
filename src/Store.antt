-- ===== src/Store.antt =====
-- scripts/pqwallet/pqwallet-store.js: the encrypted wallet, its keys and masternodes.
pub mod Records
pub mod Checks
pub mod Keys
pub mod Imports
pub mod Wallets
pub mod Masternodes
pub mod Canonical
pub mod Kept
pub mod Restore
pub mod Secrets
pub mod Recovery
pub mod Services
mod Examples
mod RefusalExamples
pub mod Receive
pub mod Service
pub mod Refused
pub mod Refusals
pub mod Steps
pub mod Consistent
pub mod Unlocked
