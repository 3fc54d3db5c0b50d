-- ===== src/InternetArchive/Runs.antt =====
-- What one run of the upload and of the deletion leaves, whatever the archive answers: the tasks of
-- perma_web/perma/celery_tasks.py against a description of their outcome.
use perma.Prelude.{
  ℕ, ◌+◌, ◌≡◌, inl, inr, ap, refl, Bool, true, false, not, ◌&&◌, ◌||◌, Option, none, some, arith,
  if◌then◌else◌, Bool-cases, is_some,
}
use perma.InternetArchive.{
  FileStatus, upload_attempted, upload_submitted, deletion_attempted, deletion_submitted, FileRow,
  Item, Daily, Limits, Proximity, reduce_rate, bucket_busy, other_complaint,
}
use perma.InternetArchive.Upload.{
  UploadReply, upload_ok, upload_timed_out, upload_connection_error, upload_uncaught,
  upload_http_error, upload_not_ok, UploadSession, on_reply, is_rate_limited, lets_upload,
  attempt_upload, Standing, can_upload_to_internet_archive, item_or_new, Rows,
  upload_link_to_internet_archive, upload_file, new_file,
}
use perma.InternetArchive.Delete.{
  DeleteReply, delete_ok, delete_uncaught, delete_failed, DeleteSession, is_deletion_rate_limited,
  lets_delete, on_deletion_reply, attempt_deletion, delete_link_from_daily_item,
}

abbrev is_upload_ok : UploadReply → Bool
is_upload_ok upload_ok = true
is_upload_ok _ = false

-- The archive takes the file: it is not loaded, the item is there, and it answers well.
abbrev pub takes_upload : Proximity → UploadSession → Bool
takes_upload near session =
    not (is_rate_limited near session) && session.has_item && is_upload_ok session.reply

abbrev is_delete_ok : DeleteReply → Bool
is_delete_ok delete_ok = true
is_delete_ok _ = false

abbrev pub takes_deletion : Proximity → DeleteSession → Bool
takes_deletion near session =
    not (is_deletion_rate_limited near session) && session.has_file && is_delete_ok session.reply

-- The row of a file that is attempted, and submitted if the archive takes it.
abbrev pub marked : FileStatus → FileStatus → Bool → FileRow → FileRow
marked attempted submitted is_taken file = record file {
  status = some (if is_taken then submitted else attempted);
}

-- A task that is not queued again stays counted.
abbrev pub counted_unless : Bool → Item → Item
counted_unless is_again item = record item {
  tasks_in_progress = item.tasks_in_progress + (if is_again then 0 else 1);
}

on_reply-daily :
    (limits : Limits) (reply : UploadReply) (attempts timeouts : ℕ) (item : Item) (file : FileRow)
    → let ran = on_reply limits reply attempts timeouts (record {
      item = record item { tasks_in_progress = item.tasks_in_progress + 1 };
      file = record file { status = some upload_attempted };
    }) in
      ran.daily ≡ record {
        item = counted_unless (is_some ran.again) item;
        file = marked upload_attempted upload_submitted (is_upload_ok reply) file;
      }
unfolding on_reply
on_reply-daily limits upload_ok attempts timeouts item file = ground arith
on_reply-daily limits upload_timed_out attempts timeouts item file = ground arith
on_reply-daily limits upload_connection_error attempts timeouts item file = ground arith
on_reply-daily limits upload_uncaught attempts timeouts item file = ground arith
on_reply-daily limits (upload_http_error complaint) attempts timeouts item file = ground arith
on_reply-daily limits (upload_not_ok reduce_rate) attempts timeouts item file = ground arith
on_reply-daily limits (upload_not_ok bucket_busy) attempts timeouts item file = ground arith
on_reply-daily limits (upload_not_ok other_complaint) attempts timeouts item file = ground arith

abbrev pub ran_upload : Bool → Bool → Item → FileRow → Daily
ran_upload is_taken is_again item file = record {
  item = counted_unless is_again item;
  file = marked upload_attempted upload_submitted is_taken file;
}

attempt_upload-daily :
    (limits : Limits) (near : Proximity) (session : UploadSession) (attempts timeouts : ℕ)
    (item : Item) (file : FileRow)
    → let ran =
        attempt_upload limits near session attempts timeouts
          (record { item = item; file = file }) in
      ran.daily ≡ ran_upload (takes_upload near session) (is_some ran.again) item file
unfolding attempt_upload
attempt_upload-daily limits near session attempts timeouts item file =
    elim (Bool-cases (is_rate_limited near session)) [
      | inl limited ↦ rw limited (ground arith)
      | inr admitted ↦ elim (Bool-cases (session.has_item)) [
        | inl found ↦
            rw (admitted, found) (on_reply-daily limits session.reply attempts timeouts item file)
        | inr missing ↦ rw (admitted, missing) (ground arith)
      ]
    ]

abbrev rows_of : Daily → Rows
rows_of daily = record { item = some daily.item; file = some daily.file }

-- The rows after an upload's run, for a file that is new and for one that is known.
abbrev pub uploaded_rows : Bool → Bool → Item → Option FileRow → Rows
uploaded_rows is_taken is_again item none = rows_of (ran_upload is_taken is_again item new_file)
uploaded_rows is_taken is_again item (some file) =
    if lets_upload file.status
    then rows_of (ran_upload is_taken is_again item file)
    else record { item = some item; file = some file }

upload_file-rows :
    (limits : Limits) (near : Proximity) (session : UploadSession) (attempts timeouts : ℕ)
    (item : Item) (file : Option FileRow)
    → let uploaded = upload_file limits near session attempts timeouts item file in
      uploaded.rows ≡ uploaded_rows (takes_upload near session) (is_some uploaded.again) item file
upload_file-rows limits near session attempts timeouts item none =
    ap rows_of (attempt_upload-daily limits near session attempts timeouts item new_file)
upload_file-rows limits near session attempts timeouts item (some file) =
    elim (Bool-cases (lets_upload file.status)) [
      | inl goes_on ↦
          rw goes_on
            (ap rows_of (attempt_upload-daily limits near session attempts timeouts item file))
      | inr refused ↦ rw refused refl
    ]

-- After any run of `upload_link_to_internet_archive`, whatever the archive answers: the rows are
-- untouched if the link may not be uploaded, or if its file is known, has no status, or has one from
-- confirmed present to deletion submitted. Otherwise the file's status is "upload submitted" exactly
-- if the archive is not loaded, has the item and answers well, and is "upload attempted" if not; no
-- other column of the file changes; and the item, which is made if there is none, has one more task in
-- progress exactly if the task is not queued again.
pub upload_link-rows :
    (limits : Limits) (near : Proximity) (link : Standing) (session : UploadSession)
    (attempts timeouts : ℕ) (rows : Rows)
    → let uploaded =
        upload_link_to_internet_archive limits near link session attempts timeouts rows in
      uploaded.rows ≡ (
        if can_upload_to_internet_archive link
        then uploaded_rows
            (takes_upload near session)
            (is_some uploaded.again)
            (item_or_new rows.item)
            rows.file
        else rows)
unfolding upload_link_to_internet_archive
upload_link-rows limits near link session attempts timeouts rows =
    elim (Bool-cases (can_upload_to_internet_archive link)) [
      | inl eligible ↦
          rw eligible (
            upload_file-rows limits near session attempts timeouts (item_or_new rows.item)
              rows.file)
      | inr ineligible ↦ rw ineligible refl
    ]

on_deletion_reply-daily :
    (limits : Limits) (reply : DeleteReply) (attempts : ℕ) (item : Item) (file : FileRow)
    → let ran = on_deletion_reply limits reply attempts (record {
      item = record item { tasks_in_progress = item.tasks_in_progress + 1 };
      file = record file { status = some deletion_attempted };
    }) in
      ran.daily ≡ record {
        item = counted_unless (is_some ran.again) item;
        file = marked deletion_attempted deletion_submitted (is_delete_ok reply) file;
      }
unfolding on_deletion_reply
on_deletion_reply-daily limits delete_ok attempts item file = ground arith
on_deletion_reply-daily limits delete_uncaught attempts item file = ground arith
on_deletion_reply-daily limits (delete_failed reduce_rate) attempts item file = ground arith
on_deletion_reply-daily limits (delete_failed bucket_busy) attempts item file = ground arith
on_deletion_reply-daily limits (delete_failed other_complaint) attempts item file = ground arith

abbrev pub ran_deletion : Bool → Bool → Item → FileRow → Daily
ran_deletion is_taken is_again item file = record {
  item = counted_unless is_again item;
  file = marked deletion_attempted deletion_submitted is_taken file;
}

attempt_deletion-daily :
    (limits : Limits) (near : Proximity) (session : DeleteSession) (attempts : ℕ) (item : Item)
    (file : FileRow)
    → let ran =
        attempt_deletion limits near session attempts (record { item = item; file = file }) in
      ran.daily ≡ ran_deletion (takes_deletion near session) (is_some ran.again) item file
unfolding attempt_deletion
attempt_deletion-daily limits near session attempts item file =
    elim (Bool-cases (is_deletion_rate_limited near session)) [
      | inl limited ↦ rw limited (ground arith)
      | inr admitted ↦ elim (Bool-cases (session.has_file)) [
        | inl found ↦
            rw (admitted, found) (on_deletion_reply-daily limits session.reply attempts item file)
        | inr missing ↦ rw (admitted, missing) (ground arith)
      ]
    ]

-- After any run of `delete_link_from_daily_item`, whatever the archive answers: the rows are untouched,
-- and the task is not queued again, unless the file is confirmed present or its deletion attempted or
-- submitted. Otherwise the file's status is "deletion submitted" exactly if the archive is not loaded,
-- has the file and answers well, and is "deletion attempted" if not; no other column of the file
-- changes; and the item has one more task in progress exactly if the task is not queued again.
pub delete_link-daily :
    (limits : Limits) (near : Proximity) (session : DeleteSession) (attempts : ℕ) (item : Item)
    (file : FileRow)
    → let daily : Daily = record { item = item; file = file } in
      let ran = delete_link_from_daily_item limits near session attempts daily in
      (ran.daily ≡ (
        if lets_delete file.status
        then ran_deletion (takes_deletion near session) (is_some ran.again) item file
        else daily))
      × ((lets_delete file.status || not (is_some ran.again)) ≡ true)
unfolding delete_link_from_daily_item
delete_link-daily limits near session attempts item file =
    elim (Bool-cases (lets_delete file.status)) [
      | inl goes_on ↦
          rw goes_on (attempt_deletion-daily limits near session attempts item file, refl)
      | inr refused ↦ rw refused (refl, refl)
    ]
