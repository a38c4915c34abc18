-- ===== src/Queue.antt =====
-- The work queue of pkg/queue/nautesqueue/nautesqueue.go: topics with their latest entry, handed to a
-- handler by several workers, with a bounded number of retries.
pub mod RateLimiting
pub mod Worker
pub mod System
pub mod Effects
pub mod Kept
pub mod Delivery
pub mod Budget
pub mod Examples
