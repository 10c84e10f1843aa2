-- ===== src/Tests.antt =====
-- Runs of the model on small inputs, and the instances at which the theorems apply.
pub mod Demo
pub mod Access
pub mod Tokens
pub mod Policy
pub mod Operators
pub mod Jobs
pub mod Provisioning
pub mod Memory
pub mod Archives
pub mod Knowledge
pub mod Limits
