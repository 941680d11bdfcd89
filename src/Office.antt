-- ===== src/Office.antt =====
-- PROJ2/src/bankoffice.c: how a bank office serves one request.
-- An office is known by its number, `thread`. The functions run here with no step of another office
-- between their steps.
pub mod Access
pub mod Handlers
pub mod Manage
pub mod Locks
pub mod Sound
pub mod Spec
pub mod Performs
pub mod Invariant
pub mod Keeps
mod Tests
pub mod Serves
pub mod Refine
pub mod Transfer
