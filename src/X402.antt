-- ===== src/X402.antt =====
-- python/src/telaro_ars/x402.py: the x402 payment gate. `Transactions` models the parsing of the
-- payment, `Gate` the policy check, `Lookup` the hosted lookup; the other children prove.
pub mod Transactions
pub mod Gate
pub mod Signers
pub mod Payer
pub mod Policy
pub mod Passes
pub mod Hosted
pub mod Judged
pub mod Codes
pub mod Escapes
pub mod Lookup
mod Tests
