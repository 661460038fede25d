-- ===== src/Shared.antt =====
-- shared/src/zkp_core.rs: wallet records, credential subjects and the witness of the circuit.
mod Examples
pub mod WalletRecord
pub mod Scalar
pub mod Subject
pub mod Witness
pub mod VaultClient
