-- ===== src/Agency.antt =====
-- The agency's own contracts (src/contracts): what an effect needs before it may happen.
pub mod Approvals
pub mod Capabilities
pub mod Effects
pub mod Grants
pub mod Resolver
