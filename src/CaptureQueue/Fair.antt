-- ===== src/CaptureQueue/Fair.antt =====
-- Where a new job stands: after all the user's own jobs, and after one job of each other user whose
-- jobs come next.
pub mod Sorted
pub mod Split
pub mod Place
