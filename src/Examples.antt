-- ===== src/Examples.antt =====
-- The theorems at concrete inputs, component by component.
mod Counts
mod Guids
mod Queue
mod Permissions
mod Payments
mod Quotas
mod Tasks
mod Folders
mod Archive
mod Sponsors
mod FolderRequests
mod Submissions
mod Conversions
mod Groups
