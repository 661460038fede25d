-- ===== src/Interfaces.antt =====
-- Libraries that the sources call and that are not part of the repository: one record of operations
-- and documented laws for each.
pub mod PrimeField
pub mod ConstraintSystem
pub mod Crypto
pub mod Json
pub mod Groth16
pub mod SharedData
pub mod Http
pub mod Host
pub mod FabricSdk
pub mod Askar
pub mod Signatures
pub mod Witnesses
