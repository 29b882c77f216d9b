-- ===== src/Controller.antt =====
-- internal/controller: one reconciliation of an autoscaler.
pub mod Report
pub mod Choice
pub mod Environment
pub mod Reconcile
pub mod History
pub mod Predict
pub mod Process
pub mod Program
