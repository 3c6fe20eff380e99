-- ===== src/Delivery.antt =====
-- The delivery dashboard over the submissions of a business unit (src/business-units), and the
-- buckets of the submission tracker (src/recruiter-submissions/tracker-workflow.ts).
pub mod Pipeline
pub mod Tests
