-- ===== src/Projects.antt =====
-- The project ledger (backend/app/modules/projects).
pub mod Status
pub mod Checks
pub mod Workflow
pub mod Rows
pub mod Permissions
pub mod Validity
pub mod Events
pub mod StatusChange
pub mod Samples
pub mod UpdateAudits
pub mod Update
pub mod Conversion
pub mod EntityCorrection
