-- ===== src/Legacy.antt =====
-- The transactions of the wallet that this one is based on: scripts/encoding.js, scripts/transaction.js,
-- scripts/script.js, scripts/transaction_builder.js, and createTransaction of scripts/wallet.js.
pub mod Encoding
pub mod Transaction
pub mod VarInt
pub mod Items
pub mod Trip
pub mod Script
pub mod Addresses
pub mod Builder
pub mod Spending
pub mod Sizes
pub mod Books
pub mod Shares
pub mod Settling
pub mod Inputs
pub mod Fees
pub mod Recognised
mod Examples
mod FeeExamples
