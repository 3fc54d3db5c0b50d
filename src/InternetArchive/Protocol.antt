-- ===== src/InternetArchive/Protocol.antt =====
-- The life of a link's file at the archive, and the tasks of perma_web/perma/celery_tasks.py as steps of
-- it, in any order: a confirmation that is queued again may run after the next deletion or upload has begun.
pub mod Turns
use perma.Prelude.{
  ℕ, ◌+◌, ◌≡◌, ◌⊎◌, refl, sym, inl, inr, ap, Bool, true, false, not, ◌&&◌, ◌||◌, Option, none, some,
  arith, if◌then◌else◌, Bool-cases, List, [], ◌∷◌, map,
}
use perma.InternetArchive.{
  FileStatus, upload_attempted, upload_submitted, confirmed_present, deletion_attempted,
  deletion_submitted, confirmed_absent, Metadata, FileRow, Item, Daily, Limits, may_retry,
  Proximity,
}
use perma.InternetArchive.Upload.{
  UploadSession, lets_upload, Standing, can_upload_to_internet_archive, item_or_new, Rows,
  upload_link_to_internet_archive,
}
use perma.InternetArchive.Delete.{DeleteSession, lets_delete, delete_link_from_daily_item}
use perma.InternetArchive.Confirm.{
  ArchivedFile, Sight, has_expected, Confirmed, recheck, confirm_file_uploaded,
  confirm_file_deleted, is_confirmed_present, is_confirmed_absent,
}
use perma.InternetArchive.Queueing.{is_upload_submitted, is_deletion_submitted}
use perma.InternetArchive.Runs.{
  takes_upload, takes_deletion, upload_link-rows, delete_link-daily, uploaded_rows, ran_deletion,
}

-- What the archive is to hold of a file.
pub data Stage : Type 0 where
  absent uploading present deleting : Stage

abbrev pub stage_of_status : Option FileStatus → Stage
stage_of_status none = absent
stage_of_status (some upload_attempted) = uploading
stage_of_status (some upload_submitted) = uploading
stage_of_status (some confirmed_present) = present
stage_of_status (some deletion_attempted) = deleting
stage_of_status (some deletion_submitted) = deleting
stage_of_status (some confirmed_absent) = absent

abbrev pub stage : Option FileRow → Stage
stage none = absent
stage (some file) = stage_of_status file.status

-- The kinds of tasks; those of the confirmations say whether the archive shows the file with the expected
-- metadata, and whether it shows that the file is gone.
pub data Kind : Type 0 where
  upload_kind delete_kind : Kind
  uploaded_kind deleted_kind : Bool → Kind

-- The turns, with the kind of task that may make each. What the archive shows counts at any stage.
pub data Turn : Kind → Stage → Stage → Type 0 where
  begin_upload : Turn upload_kind absent uploading
  see_present : {s : Stage} → Turn (uploaded_kind true) s present
  begin_deletion : Turn delete_kind present deleting
  see_absent : {s : Stage} → Turn (deleted_kind true) s absent

-- A sequence of tasks, each of which makes its turn or none.
pub data Walks : List Kind → Stage → Stage → Type 0 where
  ended : {s : Stage} → Walks [] s s
  stayed : {k : Kind} {ks : List Kind} {s u : Stage} → Walks ks s u → Walks (k ∷ ks) s u
  turned :
      {k : Kind} {ks : List Kind} {s t u : Stage} → Turn k s t → Walks ks t u → Walks (k ∷ ks) s u

-- One task, with all that it is given and what the archive answers.
pub data Task : Type 0 where
  upload : Standing → UploadSession → ℕ → ℕ → Task
  delete : DeleteSession → ℕ → Task
  check_uploaded : Metadata → Sight → ℕ → ℕ → Task
  check_deleted : Sight → ℕ → ℕ → Task

abbrev pub shows_expected : Metadata → Sight → Bool
shows_expected expected none = false
shows_expected expected (some seen) = seen.exists && has_expected seen.metadata expected

abbrev pub shows_absent : Sight → Bool
shows_absent none = false
shows_absent (some seen) = not seen.exists

abbrev pub kind : Task → Kind
kind (upload link session attempts timeouts) = upload_kind
kind (delete session attempts) = delete_kind
kind (check_uploaded expected sight attempts errors) = uploaded_kind (shows_expected expected sight)
kind (check_deleted sight attempts errors) = deleted_kind (shows_absent sight)

-- The three tasks that need a row for the file, on the rows of the database.
abbrev pub on_known : (Daily → Daily) → Option Item → Option FileRow → Rows
on_known f (some item) (some file) =
    let daily = f (record { item = item; file = file }) in
    record { item = some daily.item; file = some daily.file }
on_known f item file = record { item = item; file = file }

abbrev pub run_task : Limits → Proximity → Task → Rows → Rows
run_task limits near (upload link session attempts timeouts) rows =
    (upload_link_to_internet_archive limits near link session attempts timeouts rows).rows
run_task limits near (delete session attempts) rows =
    on_known (λ daily. (delete_link_from_daily_item limits near session attempts daily).daily)
      rows.item rows.file
run_task limits near (check_uploaded expected sight attempts errors) rows =
    on_known (λ daily. (confirm_file_uploaded limits expected sight attempts errors daily).daily)
      rows.item rows.file
run_task limits near (check_deleted sight attempts errors) rows =
    on_known (λ daily. (confirm_file_deleted limits sight attempts errors daily).daily) rows.item
      rows.file

unfoldable pub run_tasks : Limits → Proximity → List Task → Rows → Rows
run_tasks limits near [] rows = rows
run_tasks limits near (task ∷ tasks) rows =
    run_tasks limits near tasks (run_task limits near task rows)
