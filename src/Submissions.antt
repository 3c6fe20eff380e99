-- ===== src/Submissions.antt =====
-- The life of a candidate's submission to a job (src/recruiter-submissions).
pub mod Model
pub mod Capabilities
pub mod RoundUpdate
pub mod Validate
pub mod Update
pub mod History
pub mod Saving
pub mod Buckets
pub mod Amounts
mod Tests
