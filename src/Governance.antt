-- ===== src/Governance.antt =====
-- Rate windows of src/state_governance.rs.
pub mod Rates
pub mod Audit
pub mod Tests
