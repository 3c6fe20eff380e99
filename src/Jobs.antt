-- ===== src/Jobs.antt =====
-- Jobs: who may act on them, and how they are handed to pods (src/jobs).
pub mod Actions
pub mod Pods
pub mod Staffing
pub mod Submitting
mod Tests
