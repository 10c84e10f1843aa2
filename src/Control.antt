-- ===== src/Control.antt =====
-- control.py: the Control Store and the control module over it.
pub mod Identities
pub mod Accounts
pub mod Delegations
pub mod Access
pub mod Routes
pub mod Soundness
pub mod Reachable
pub mod Lifetimes
pub mod Approval
pub mod Regrant
