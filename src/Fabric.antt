-- ===== src/Fabric.antt =====
-- fabric-client: the connection profile, the client of the ledger and the credential manager.
pub mod Config
pub mod Models
pub mod Ledger
pub mod Client
pub mod Credentials
pub mod Payload
pub mod Issue
