-- ===== src/Limits.antt =====
-- Spending policies (internal/limits): amounts, periods, counters and the decision.
pub mod Amount
pub mod Calendar
pub mod Period
pub mod Counter
pub mod Policy
pub mod Service
pub mod Tests
