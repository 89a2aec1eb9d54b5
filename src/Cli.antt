-- ===== src/Cli.antt =====
-- python/src/telaro_ars/conformance_cli.py: the conformance command. `Python` and `Http` model the
-- transports, `Certificate` the certificate, `Main` the command.
pub mod Python
pub mod Target
pub mod Http
pub mod Replies
pub mod Certificate
pub mod Fingerprint
pub mod Main
mod Tests
