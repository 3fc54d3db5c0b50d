-- ===== src/InternetArchive/Delete.antt =====
-- `delete_link_from_daily_item` of perma_web/perma/celery_tasks.py.
use perma.Prelude.{ℕ, ◌+◌, Bool, true, false, not, ◌||◌, Option, some, if◌then◌else◌}
use perma.InternetArchive.{
  FileStatus, confirmed_present, deletion_attempted, deletion_submitted, Daily, Limits, may_retry,
  LoadDetails, Proximity, global_task_limit_approaching, perma_task_limit_approaching, Complaint,
  reduce_rate, bucket_busy, other_complaint, Ran, set_status, count_task, end, requeue, requeue_if,
}

-- What comes of `ia_file.delete` and the assertion: every exception of the `except` clause is
-- `delete_failed`, with what its text says.
pub data DeleteReply : Type 0 where
  delete_ok delete_uncaught : DeleteReply
  delete_failed : Complaint → DeleteReply

pub record DeleteSession : Type 0 where
  pub is_overloaded : Bool
  pub details : Option LoadDetails
  pub has_file : Bool
  pub reply : DeleteReply

abbrev pub is_deletion_rate_limited : Proximity → DeleteSession → Bool
is_deletion_rate_limited near session =
    session.is_overloaded
    || perma_task_limit_approaching near session.details
    || global_task_limit_approaching near session.details

abbrev pub lets_delete : Option FileStatus → Bool
lets_delete (some deletion_attempted) = true
lets_delete (some deletion_submitted) = true
lets_delete (some confirmed_present) = true
lets_delete _ = false

unfoldable pub on_deletion_reply : Limits → DeleteReply → ℕ → Daily → Ran ℕ
on_deletion_reply limits delete_ok attempts daily = end (set_status deletion_submitted daily)
on_deletion_reply limits delete_uncaught attempts daily = end daily
on_deletion_reply limits (delete_failed reduce_rate) attempts daily =
    requeue_if (may_retry limits.ratelimiting attempts) (attempts + 1) daily
on_deletion_reply limits (delete_failed bucket_busy) attempts daily =
    requeue_if (may_retry limits.errors attempts) (attempts + 1) daily
on_deletion_reply limits (delete_failed other_complaint) attempts daily =
    requeue_if (may_retry limits.errors attempts) (attempts + 1) daily

unfoldable pub attempt_deletion : Limits → Proximity → DeleteSession → ℕ → Daily → Ran ℕ
attempt_deletion limits near session attempts daily =
    let begun : Daily = count_task (set_status deletion_attempted daily) in
    if is_deletion_rate_limited near session
    then requeue_if (may_retry limits.ratelimiting attempts) (attempts + 1) begun
    else if not session.has_file
    then requeue attempts begun
    else on_deletion_reply limits session.reply attempts begun

-- For a link whose file has a row in a daily item; without one, `get` raises.
unfoldable pub delete_link_from_daily_item : Limits → Proximity → DeleteSession → ℕ → Daily → Ran ℕ
delete_link_from_daily_item limits near session attempts daily =
    if lets_delete daily.file.status
    then attempt_deletion limits near session attempts daily
    else end daily
