-- ===== src/InternetArchive.antt =====
-- The exchange with the Internet Archive: the models of perma_web/perma/models/internet_archive.py, the
-- load tests of perma_web/perma/utils.py, and what the tasks of perma_web/perma/celery_tasks.py share.
-- What the archive answers is an argument of the tasks. One daily item is modelled, with one link's file.
pub mod Upload
pub mod Delete
pub mod Confirm
pub mod Queueing
pub mod Runs
pub mod Retries
pub mod Protocol
pub mod Bounds
pub mod Deletions
use perma.Prelude.{
  ℕ, ◌+◌, ◌-◌, Bool, true, false, not, ◌&&◌, ◌||◌, Option, none, some, List, [], ◌∷◌, ltb, leb,
  ◌==◌, if◌then◌else◌,
}

-- `InternetArchiveFile.status`, a nullable column.
pub data FileStatus : Type 0 where
  upload_attempted upload_submitted confirmed_present : FileStatus
  deletion_attempted deletion_submitted confirmed_absent : FileStatus

abbrev pub Text : Type 0
Text = List ℕ

-- Metadata of a file, by the number of the key.
abbrev pub Metadata : Type 0
Metadata = List (ℕ × Text)

-- `InternetArchiveFile`; `cached_metadata` stands for its seven `cached_…` text columns.
pub record FileRow : Type 0 where
  pub status : Option FileStatus
  pub cached_size : Option ℕ
  pub cached_metadata : Option Metadata

-- `InternetArchiveItem`
pub record Item : Type 0 where
  pub tasks_in_progress : ℕ
  pub confirmed_exists : Bool
  pub derive_required : Bool
  pub cached_file_count : Option ℕ
  pub complete : Bool

-- An item with the row of one link's file in it.
pub record Daily : Type 0 where
  pub item : Item
  pub file : FileRow

-- The settings that limit the retries; 0 is no limit, but for `confirmation_connection_errors`.
pub record Limits : Type 0 where
  pub ratelimiting : ℕ
  pub max_timeouts : ℕ
  pub errors : ℕ
  pub confirmation_connection_errors : ℕ

-- `not LIMIT or LIMIT > attempts + 1`
abbrev pub may_retry : ℕ → ℕ → Bool
may_retry limit attempts = limit == 0 || ltb (attempts + 1) limit

-- `s3_details['detail']`
pub record LoadDetails : Type 0 where
  pub total_global_limit : ℕ
  pub total_tasks_queued : ℕ
  pub accesskey_ration : ℕ
  pub accesskey_tasks_queued : ℕ
  pub bucket_ration : ℕ
  pub bucket_tasks_queued : ℕ

-- The two permitted proximities.
pub record Proximity : Type 0 where
  pub to_global : ℕ
  pub to_own : ℕ

-- `limit - queued - proximity <= 0`, over the integers.
abbrev pub is_approaching : ℕ → ℕ → ℕ → Bool
is_approaching limit queued proximity = leb limit (queued + proximity)

abbrev pub global_task_limit_approaching : Proximity → Option LoadDetails → Bool
global_task_limit_approaching near none = true
global_task_limit_approaching near (some details) =
    is_approaching details.total_global_limit details.total_tasks_queued near.to_global

abbrev pub perma_task_limit_approaching : Proximity → Option LoadDetails → Bool
perma_task_limit_approaching near none = true
perma_task_limit_approaching near (some details) =
    is_approaching details.accesskey_ration details.accesskey_tasks_queued near.to_own

abbrev pub bucket_task_limit_approaching : Proximity → Option LoadDetails → Bool
bucket_task_limit_approaching near none = true
bucket_task_limit_approaching near (some details) =
    is_approaching details.bucket_ration details.bucket_tasks_queued near.to_own

-- What an error's text says: to reduce the rate, that the bucket is being made, or something else.
pub data Complaint : Type 0 where
  reduce_rate bucket_busy other_complaint : Complaint

-- The end of a task: the rows, and the arguments with which the task is queued again.
pub record Ran (Again : Type 0) : Type 0 where
  pub daily : Daily
  pub again : Option Again

abbrev pub set_status : FileStatus → Daily → Daily
set_status status daily = record daily { file = record (daily.file) { status = some status } }

abbrev pub count_task : Daily → Daily
count_task daily = record daily {
  item = record (daily.item) { tasks_in_progress = daily.item.tasks_in_progress + 1 };
}

-- `F('tasks_in_progress') - 1`, always after the task counted itself, and `Greatest(… - 1, 0)`.
abbrev pub uncount_task : Daily → Daily
uncount_task daily = record daily {
  item = record (daily.item) { tasks_in_progress = daily.item.tasks_in_progress - 1 };
}

abbrev pub end : {Again : Type 0} → Daily → Ran Again
end daily = record { daily = daily; again = none }

-- `retry_upload` and `retry_deletion`
abbrev pub requeue : {Again : Type 0} → Again → Daily → Ran Again
requeue arguments daily = record { daily = uncount_task daily; again = some arguments }

-- Queue the task again if the limit allows it, and otherwise give up: the task stays counted.
abbrev pub requeue_if : {Again : Type 0} → Bool → Again → Daily → Ran Again
requeue_if true arguments daily = requeue arguments daily
requeue_if false arguments daily = end daily
