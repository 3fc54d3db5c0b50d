-- ===== src/InternetArchive/Upload.antt =====
-- `upload_link_to_internet_archive` of perma_web/perma/celery_tasks.py.
use perma.Prelude.{ℕ, ◌+◌, Bool, true, false, not, ◌&&◌, ◌||◌, Option, none, some, if◌then◌else◌}
use perma.InternetArchive.{
  FileStatus, upload_attempted, upload_submitted, confirmed_absent, FileRow, Item, Daily, Limits,
  may_retry, LoadDetails, Proximity, global_task_limit_approaching, perma_task_limit_approaching,
  bucket_task_limit_approaching, Complaint, reduce_rate, bucket_busy, other_complaint, Ran,
  set_status, count_task, end, requeue, requeue_if,
}

-- What comes of `upload_file` and the assertion on its response: `upload_http_error` is a
-- `requests.exceptions.HTTPError`, `upload_not_ok` a response that is not 200, and `upload_uncaught` an
-- exception that no branch catches.
pub data UploadReply : Type 0 where
  upload_ok upload_timed_out upload_connection_error upload_uncaught : UploadReply
  upload_http_error upload_not_ok : Complaint → UploadReply

-- What the archive answers to one run of the task.
pub record UploadSession : Type 0 where
  pub is_overloaded : Bool
  pub details : Option LoadDetails
  pub has_item : Bool
  pub reply : UploadReply

-- `CONNECTION_ERRORS`: `HTTPError` is one of them.
abbrev pub is_connection_error : UploadReply → Bool
is_connection_error upload_connection_error = true
is_connection_error (upload_http_error complaint) = true
is_connection_error _ = false

-- The branches of the third `except`, for the text of the error.
abbrev pub on_complaint : Limits → Complaint → ℕ → ℕ → Daily → Ran (ℕ × ℕ)
on_complaint limits reduce_rate attempts timeouts daily =
    requeue_if (may_retry limits.ratelimiting attempts) (attempts + 1, timeouts) daily
on_complaint limits bucket_busy attempts timeouts daily = requeue (attempts, timeouts) daily
on_complaint limits other_complaint attempts timeouts daily =
    requeue_if (may_retry limits.errors attempts) (attempts + 1, timeouts) daily

abbrev pub on_other_reply : Limits → UploadReply → ℕ → ℕ → Daily → Ran (ℕ × ℕ)
on_other_reply limits upload_ok attempts timeouts daily = end (set_status upload_submitted daily)
on_other_reply limits upload_timed_out attempts timeouts daily =
    requeue_if (may_retry limits.max_timeouts timeouts) (attempts, timeouts + 1) daily
on_other_reply limits (upload_not_ok complaint) attempts timeouts daily =
    on_complaint limits complaint attempts timeouts daily
on_other_reply limits (upload_http_error complaint) attempts timeouts daily =
    on_complaint limits complaint attempts timeouts daily
on_other_reply limits upload_connection_error attempts timeouts daily = end daily
on_other_reply limits upload_uncaught attempts timeouts daily = end daily

-- The `try` around the upload: the `except` clauses are tried in their order.
unfoldable pub on_reply : Limits → UploadReply → ℕ → ℕ → Daily → Ran (ℕ × ℕ)
on_reply limits reply attempts timeouts daily =
    if is_connection_error reply
    then requeue (attempts, timeouts) daily
    else on_other_reply limits reply attempts timeouts daily

abbrev pub is_rate_limited : Proximity → UploadSession → Bool
is_rate_limited near session =
    session.is_overloaded
    || perma_task_limit_approaching near session.details
    || global_task_limit_approaching near session.details
    || bucket_task_limit_approaching near session.details

-- The statuses of a known file that let an upload go on.
abbrev pub lets_upload : Option FileStatus → Bool
lets_upload (some upload_attempted) = true
lets_upload (some upload_submitted) = true
lets_upload (some confirmed_absent) = true
lets_upload _ = false

-- The attempt, once the file's row lets it go on.
unfoldable pub attempt_upload : Limits → Proximity → UploadSession → ℕ → ℕ → Daily → Ran (ℕ × ℕ)
attempt_upload limits near session attempts timeouts daily =
    let begun : Daily = set_status upload_attempted (count_task daily) in
    if is_rate_limited near session
    then requeue_if (may_retry limits.ratelimiting attempts) (attempts + 1, timeouts) begun
    else if not session.has_item
    then requeue (attempts, timeouts) begun
    else on_reply limits session.reply attempts timeouts begun

-- `is_discoverable` with `cached_can_play_back`, for a link that is not deleted.
pub record Standing : Type 0 where
  pub is_private : Bool
  pub is_unlisted : Bool
  pub cached_can_play_back : Option Bool

abbrev pub is_discoverable : Standing → Bool
is_discoverable link = not link.is_private && not link.is_unlisted

abbrev pub plays : Option Bool → Bool
plays none = false
plays (some b) = b

unfoldable pub can_upload_to_internet_archive : Standing → Bool
can_upload_to_internet_archive link = plays link.cached_can_play_back && is_discoverable link

-- `ineligible_for_ia`: `exclude(DISCOVERABLE_FILTER, cached_can_play_back=True)`
unfoldable pub ineligible_for_ia : Standing → Bool
ineligible_for_ia link =
    not (not link.is_unlisted && not link.is_private && plays link.cached_can_play_back)

abbrev pub new_item : Item
new_item = record {
  tasks_in_progress = 0;
  confirmed_exists = false;
  derive_required = false;
  cached_file_count = none;
  complete = false;
}

abbrev pub new_file : FileRow
new_file = record { status = some upload_attempted; cached_size = none; cached_metadata = none }

abbrev pub item_or_new : Option Item → Item
item_or_new none = new_item
item_or_new (some item) = item

-- The rows of the database: the item of the link's day, and the link's file in it.
pub record Rows : Type 0 where
  pub item : Option Item
  pub file : Option FileRow

pub record Uploaded : Type 0 where
  pub rows : Rows
  pub again : Option (ℕ × ℕ)

abbrev pub to_rows : Ran (ℕ × ℕ) → Uploaded
to_rows ran = record {
  rows = record { item = some ran.daily.item; file = some ran.daily.file };
  again = ran.again;
}

-- `none` is a file that is created now.
abbrev pub upload_file :
    Limits → Proximity → UploadSession → ℕ → ℕ → Item → Option FileRow → Uploaded
upload_file limits near session attempts timeouts item none =
    to_rows (
      attempt_upload limits near session attempts timeouts
        (record { item = item; file = new_file }))
upload_file limits near session attempts timeouts item (some file) =
    if lets_upload file.status
    then to_rows
        (attempt_upload limits near session attempts timeouts (record { item = item; file = file }))
    else record { rows = record { item = some item; file = some file }; again = none }

unfoldable pub upload_link_to_internet_archive :
    Limits → Proximity → Standing → UploadSession → ℕ → ℕ → Rows → Uploaded
upload_link_to_internet_archive limits near link session attempts timeouts rows =
    if not (can_upload_to_internet_archive link)
    then record { rows = rows; again = none }
    else upload_file limits near session attempts timeouts (item_or_new rows.item) rows.file
