-- ===== src/Recovery.antt =====
-- Recovery after failures: the backoff between attempts, the bounded queues that hold messages
-- and events meanwhile, and the retry queue of the notifications.
pub mod Backoff
pub mod Queue
pub mod Retries
pub mod States
mod Examples
