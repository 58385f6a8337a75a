-- ===== src/Evaluations.antt =====
-- The evaluation of policies (backend/app/modules/evaluations).
pub mod Rows
pub mod Values
pub mod Snapshots
pub mod Events
pub mod Queue
pub mod Writes
pub mod Processing
pub mod Primaries
pub mod Decisions
pub mod Adjustments
pub mod Secured
pub mod Choosing
pub mod Confirming
pub mod Adjusting
pub mod Machine
pub mod Writing
pub mod Views
pub mod Transactions
pub mod Runs
pub mod Finality
pub mod Convertible
pub mod Settling
pub mod LostClaims
pub mod Reordering
pub mod Repeating
pub mod Idempotence
pub mod Shown
pub mod Latest
pub mod Previous
pub mod Changes
pub mod Cancelling
pub mod Samples
mod Tests
