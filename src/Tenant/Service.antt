-- ===== src/Tenant/Service.antt =====
-- services/tenancy/tenantctl/service.py: TenantControlPlaneService. Gates has the checks, Apply and
-- Replay the two ways to execute a transition, Transition the audited entry, Crud the rest; the
-- other children have the proofs.
pub mod Gates
pub mod Extras
pub mod Apply
pub mod Replay
pub mod Transition
pub mod Crud
pub mod Keeps
pub mod Denials
pub mod DenialRecord
pub mod Audited
pub mod Legal
pub mod Effects
pub mod Applied
pub mod Purge
pub mod Scope
pub mod Records
pub mod History
