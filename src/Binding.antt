-- ===== src/Binding.antt =====
-- python/src/telaro_ars/binding.py: ARS settlement actions to instructions of the Telaro program.
-- `Params` are the dataclasses, `Intents` the readable descriptions, `Builders` the encoded
-- instructions; the other children prove what the two surfaces have to do with one another.
pub mod Params
pub mod Intents
pub mod Builders
pub mod Layout
pub mod Carries
pub mod Injective
pub mod Returns
pub mod Accounts
mod Tests
