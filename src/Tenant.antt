-- ===== src/Tenant.antt =====
-- services/tenancy/tenantctl: the tenant control plane.
pub mod Errors
pub mod Document
pub mod Request
pub mod Machine
pub mod Approval
pub mod Store
pub mod Audit
pub mod Renders
pub mod Service
mod Samples
mod Tests
