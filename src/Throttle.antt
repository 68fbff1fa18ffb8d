-- ===== src/Throttle.antt =====
-- agent_runner/_throttle.py: the throttle state that is read back from the events, and the back-off.
pub mod Coerce
pub mod Scan
pub mod Ladder
pub mod Active
pub mod Sleep
pub mod Merge
pub mod View
mod Tests
pub mod Window
pub mod Bounds
pub mod Recovery
