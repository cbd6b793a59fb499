-- ===== src/Runtime.antt =====
-- What the operator's code calls and does not implement, and the effects of a Go function.
pub mod Calls
pub mod Env
pub mod Effects
pub mod Keeps
pub mod Since
pub mod Steps
pub mod Hoare
