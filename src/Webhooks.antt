-- ===== src/Webhooks.antt =====
-- Event delivery (internal/webhooks): the queue, the fan-out and the worker.
pub mod Store
pub mod Publisher
pub mod Worker
mod Tests
