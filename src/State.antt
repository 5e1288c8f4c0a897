-- ===== src/State.antt =====
-- packages/driver/src/state: the model's own stores and the requery policy.
pub mod Scrollback
pub mod Coalescer
