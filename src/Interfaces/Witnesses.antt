-- ===== src/Interfaces/Witnesses.antt =====
-- Concrete values of the interfaces, which show that their laws can hold. They are test data.
pub mod Zmod
pub mod Systems
pub mod Hashes
pub mod Ciphers
pub mod Proofs
pub mod Disk
pub mod FlatJson
pub mod Network
