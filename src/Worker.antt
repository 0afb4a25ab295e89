-- ===== src/Worker.antt =====
-- worker/tasks.py: the tasks that run the managers, and what they queue.
pub mod Retry
pub mod Tasks
pub mod Polls
pub mod Queue
pub mod Consistent
mod Tests
