-- ===== src/Runtime.antt =====
-- packages/driver/src/runtime: the controllers between tmux and the attached clients.
pub mod FlowControl
pub mod NotifyKind
pub mod RateLimiter
pub mod OutputDemux
