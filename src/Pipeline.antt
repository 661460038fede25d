-- ===== src/Pipeline.antt =====
-- How the parts work together: what one of them sends is what the next of them accepts.
mod Examples
pub mod Revoke
pub mod Admit
