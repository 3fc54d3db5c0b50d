-- ===== src/Examples/Archive.antt =====
-- The exchange with the Internet Archive at concrete inputs.

use perma.Prelude.{
  ◌+◌, ◌-◌, ◌≡◌, ◌≤◌, refl, true, false, not, ◌||◌, if◌then◌else◌, none, some, List, [], ◌∷◌, map,
  All, arith, is_some,
}
use perma.InternetArchive.{
  confirmed_present, FileRow, Daily, Limits, Proximity, LoadDetails, reduce_rate, other_complaint,
}
use perma.InternetArchive.Upload.{
  UploadSession, upload_ok, upload_not_ok, upload_http_error, upload_timed_out, Standing, Rows,
  can_upload_to_internet_archive, item_or_new, upload_link_to_internet_archive, new_item,
  attempt_upload, on_reply,
}
use perma.InternetArchive.Delete.{
  DeleteSession, delete_ok, lets_delete, delete_link_from_daily_item, attempt_deletion,
  on_deletion_reply,
}
use perma.InternetArchive.Confirm.{ArchivedFile, confirm_file_uploaded, confirm_file_deleted}
use perma.InternetArchive.Queueing.{
  queue_batched_tasks, Day, at_most, conditionally_queue_uploads, ArchivedLink, batches_from,
  queue_days, queue_internet_archive_uploads_for_date,
}
use perma.InternetArchive.Bounds.{total_queued, IsWithin, conditionally_queue_uploads-bound}
use perma.InternetArchive.Runs.{
  takes_upload, takes_deletion, uploaded_rows, ran_deletion, upload_link-rows, delete_link-daily,
}
use perma.InternetArchive.Retries.{run_count, run_count-le-limits}
use perma.InternetArchive.Retries.HttpErrors.{run_count-http_errors}
use perma.InternetArchive.Protocol.{
  Walks, kind, stage, absent, present, Task, upload, delete, check_uploaded, check_deleted,
  run_tasks,
}
use perma.InternetArchive.Protocol.Turns.{run_tasks-Walks}

abbrev limits : Limits
limits = record {
  ratelimiting = 3;
  max_timeouts = 2;
  errors = 4;
  confirmation_connection_errors = 1;
}

abbrev near : Proximity
near = record { to_global = 10; to_own = 5 }

abbrev public_link : Standing
public_link = record { is_private = false; is_unlisted = false; cached_can_play_back = some true }

abbrev light_load : LoadDetails
light_load = record {
  total_global_limit = 1000;
  total_tasks_queued = 12;
  accesskey_ration = 100;
  accesskey_tasks_queued = 3;
  bucket_ration = 50;
  bucket_tasks_queued = 0;
}

abbrev accepts : UploadSession
accepts = record {
  is_overloaded = false;
  details = some light_load;
  has_item = true;
  reply = upload_ok;
}

abbrev times_out : UploadSession
times_out = record accepts { reply = upload_timed_out }

abbrev refuses : UploadSession
refuses = record accepts { reply = upload_not_ok other_complaint }

abbrev limits_rate : UploadSession
limits_rate = record accepts { reply = upload_http_error reduce_rate }

abbrev takes_away : DeleteSession
takes_away = record {
  is_overloaded = false;
  details = some light_load;
  has_file = true;
  reply = delete_ok;
}

abbrev no_rows : Rows
no_rows = record { item = none; file = none }

abbrev present_file : FileRow
present_file = record {
  status = some confirmed_present;
  cached_size = some 9;
  cached_metadata = none;
}

abbrev in_archive : Rows
in_archive = record { item = some new_item; file = some present_file }

abbrev seen : ArchivedFile
seen = record { exists = true; metadata = []; size = 9; files_count = 3 }

abbrev gone : ArchivedFile
gone = record seen { exists = false }

abbrev busy_day : Day
busy_day = record {
  is_barred = false;
  item = some (record new_item { tasks_in_progress = 2 });
  span_start = 0;
  pending = 1 ∷ 2 ∷ 3 ∷ 4 ∷ [];
}

abbrev fresh_day : Day
fresh_day = record { is_barred = false; item = none; span_start = 0; pending = 5 ∷ 6 ∷ 7 ∷ 8 ∷ [] }

abbrev private_link : ArchivedLink
private_link = record {
  guid = 4;
  standing = record public_link { is_private = true };
  daily_file = none;
}

batches_of_two : queue_batched_tasks 2 (4 ∷ 5 ∷ 6 ∷ []) ≡ (4 ∷ 5 ∷ []) ∷ (6 ∷ []) ∷ []
unfolding queue_batched_tasks batches_from
batches_of_two = refl

conditionally_queue_uploads-bound_example :
    let outcome =
      conditionally_queue_uploads 9 0 10 5 3 (some 4) (busy_day ∷ fresh_day ∷ fresh_day ∷ []) in
    (total_queued outcome ≤ at_most (some 4) (10 - 5)) × All (IsWithin 3) outcome
conditionally_queue_uploads-bound_example =
    conditionally_queue_uploads-bound 9 0 10 5 3 (some 4) (busy_day ∷ fresh_day ∷ fresh_day ∷ [])

queued_over_days :
    total_queued (conditionally_queue_uploads 9 0 10 5 3 (some 4) (busy_day ∷ fresh_day ∷ [])) ≡ 4
unfolding conditionally_queue_uploads queue_days queue_internet_archive_uploads_for_date
queued_over_days = refl

upload_link-rows_example :
    let uploaded = upload_link_to_internet_archive limits near public_link accepts 0 0 no_rows in
    uploaded.rows ≡ (
      if can_upload_to_internet_archive public_link
      then uploaded_rows
          (takes_upload near accepts)
          (is_some uploaded.again)
          (item_or_new none)
          none
      else no_rows)
upload_link-rows_example = upload_link-rows limits near public_link accepts 0 0 no_rows

first_upload :
    (upload_link_to_internet_archive limits near public_link accepts 0 0 no_rows).rows.item
    ≡ some (record new_item { tasks_in_progress = 1 })
unfolding upload_link_to_internet_archive can_upload_to_internet_archive attempt_upload on_reply
first_upload = refl

delete_link-daily_example :
    let daily : Daily = record { item = new_item; file = present_file } in
    let ran = delete_link_from_daily_item limits near takes_away 0 daily in
    (ran.daily ≡ (
      if lets_delete present_file.status
      then ran_deletion (takes_deletion near takes_away) (is_some ran.again) new_item present_file
      else daily))
    × ((lets_delete present_file.status || not (is_some ran.again)) ≡ true)
delete_link-daily_example = delete_link-daily limits near takes_away 0 new_item present_file

run_count-le-limits_example :
    run_count limits near public_link (times_out ∷ refuses ∷ refuses ∷ accepts ∷ []) 0 0 no_rows
    ≤ 1 + 3 + 4 + 2
run_count-le-limits_example =
    run_count-le-limits limits near public_link (times_out ∷ refuses ∷ refuses ∷ accepts ∷ [])
      no_rows (omega arith, omega arith, omega arith) (refl, (refl, (refl, (refl, tt))))

run_count-http_errors_example :
    run_count limits near public_link
      (limits_rate ∷ limits_rate ∷ limits_rate ∷ limits_rate ∷ [])
      0
      0
      no_rows
    ≡ 4
unfolding can_upload_to_internet_archive
run_count-http_errors_example =
    run_count-http_errors limits near public_link
      (limits_rate ∷ limits_rate ∷ limits_rate ∷ limits_rate ∷ []) 0 0 no_rows refl
      (
        (refl, refl, (reduce_rate, refl)),
        (
          (refl, refl, (reduce_rate, refl)),
          ((refl, refl, (reduce_rate, refl)), ((refl, refl, (reduce_rate, refl)), tt)),
        ),
      )
      refl

abbrev round_trip : List Task
round_trip =
    upload public_link accepts 0 0
    ∷ check_uploaded [] (some seen) 0 0
    ∷ upload public_link accepts 0 0
    ∷ delete takes_away 0
    ∷ check_deleted (some gone) 0 0
    ∷ []

run_tasks-Walks_example :
    Walks (map kind round_trip) absent (stage (run_tasks limits near round_trip no_rows).file)
run_tasks-Walks_example = run_tasks-Walks limits near round_trip no_rows

round_trip-absent : stage (run_tasks limits near round_trip no_rows).file ≡ absent
unfolding run_tasks upload_link_to_internet_archive can_upload_to_internet_archive attempt_upload
    on_reply delete_link_from_daily_item attempt_deletion on_deletion_reply confirm_file_uploaded
    confirm_file_deleted
round_trip-absent = refl

-- A confirmation of the upload that runs while a deletion is submitted takes the file for present again.
late_confirmation :
    stage
      (run_tasks limits near
        (upload public_link accepts 0 0
          ∷ check_uploaded [] (some seen) 0 0
          ∷ delete takes_away 0
          ∷ check_uploaded [] (some seen) 1 0
          ∷ [])
        no_rows).file
    ≡ present
unfolding run_tasks upload_link_to_internet_archive can_upload_to_internet_archive attempt_upload
    on_reply delete_link_from_daily_item attempt_deletion on_deletion_reply confirm_file_uploaded
    confirm_file_deleted
late_confirmation = refl
