-- ===== src/InternetArchive/Protocol/Turns.antt =====
-- The tasks of perma_web/perma/celery_tasks.py on a link's file keep to the turns of its stages.
use mathlib.Core.Path.{subst}
use perma.Prelude.{
  ℕ, ◌≡◌, ◌⊎◌, refl, inl, inr, ap, Bool, true, false, ◌&&◌, Option, none, some, arith,
  if◌then◌else◌, Bool-cases, List, [], ◌∷◌, map,
}
use perma.InternetArchive.{
  FileStatus, upload_attempted, upload_submitted, confirmed_present, deletion_attempted,
  deletion_submitted, confirmed_absent, Metadata, FileRow, Item, Daily, Limits, Proximity,
}
use perma.InternetArchive.Upload.{
  UploadSession, lets_upload, Standing, can_upload_to_internet_archive, item_or_new, Rows,
  upload_link_to_internet_archive,
}
use perma.InternetArchive.Delete.{DeleteSession, lets_delete, delete_link_from_daily_item}
use perma.InternetArchive.Confirm.{
  Sight, has_expected, confirm_file_uploaded, confirm_file_deleted, is_confirmed_present,
  is_confirmed_absent,
}
use perma.InternetArchive.Runs.{upload_link-rows, delete_link-daily, uploaded_rows}
use perma.InternetArchive.Protocol.{
  Stage, stage_of_status, stage, Kind, upload_kind, delete_kind, uploaded_kind, deleted_kind, Turn,
  begin_upload, see_present, begin_deletion, see_absent, Walks, ended, stayed, turned, Task, upload,
  delete, check_uploaded, check_deleted, kind, shows_expected, shows_absent, run_task, run_tasks,
}

abbrev Advances : Kind → Stage → Stage → Type 0
Advances k s t = (t ≡ s) ⊎ Turn k s t

uploaded_status-Advances :
    (is_taken : Bool) (status : Option FileStatus)
    → lets_upload status ≡ true
    → Advances upload_kind
        (stage_of_status status)
        (stage_of_status (some (if is_taken then upload_submitted else upload_attempted)))
uploaded_status-Advances is_taken none h = cc
uploaded_status-Advances true (some upload_attempted) h = inl refl
uploaded_status-Advances false (some upload_attempted) h = inl refl
uploaded_status-Advances true (some upload_submitted) h = inl refl
uploaded_status-Advances false (some upload_submitted) h = inl refl
uploaded_status-Advances true (some confirmed_absent) h = inr begin_upload
uploaded_status-Advances false (some confirmed_absent) h = inr begin_upload
uploaded_status-Advances is_taken (some confirmed_present) h = cc
uploaded_status-Advances is_taken (some deletion_attempted) h = cc
uploaded_status-Advances is_taken (some deletion_submitted) h = cc

uploaded_rows-Advances :
    (is_taken is_again : Bool) (item : Item) (file : Option FileRow)
    → Advances upload_kind (stage file) (stage (uploaded_rows is_taken is_again item file).file)
uploaded_rows-Advances true is_again item none = inr begin_upload
uploaded_rows-Advances false is_again item none = inr begin_upload
uploaded_rows-Advances is_taken is_again item (some file) =
    elim (Bool-cases (lets_upload file.status)) [
      | inl goes_on ↦ rw goes_on (uploaded_status-Advances is_taken file.status goes_on)
      | inr refused ↦ rw refused (inl refl)
    ]

upload-Advances :
    (limits : Limits) (near : Proximity) (link : Standing) (session : UploadSession)
    (attempts timeouts : ℕ) (rows : Rows)
    → Advances upload_kind (stage rows.file) (
        stage
          (upload_link_to_internet_archive limits near link session attempts timeouts
            rows).rows.file)
upload-Advances limits near link session attempts timeouts rows =
    rw (upload_link-rows limits near link session attempts timeouts rows)
      (elim (Bool-cases (can_upload_to_internet_archive link)) [
        | inl eligible ↦ rw eligible (uploaded_rows-Advances _ _ (item_or_new rows.item) rows.file)
        | inr ineligible ↦ rw ineligible (inl refl)
      ])

deleted_status-Advances :
    (is_taken : Bool) (status : Option FileStatus)
    → lets_delete status ≡ true
    → Advances delete_kind
        (stage_of_status status)
        (stage_of_status (some (if is_taken then deletion_submitted else deletion_attempted)))
deleted_status-Advances is_taken none h = cc
deleted_status-Advances is_taken (some upload_attempted) h = cc
deleted_status-Advances is_taken (some upload_submitted) h = cc
deleted_status-Advances is_taken (some confirmed_absent) h = cc
deleted_status-Advances true (some confirmed_present) h = inr begin_deletion
deleted_status-Advances false (some confirmed_present) h = inr begin_deletion
deleted_status-Advances true (some deletion_attempted) h = inl refl
deleted_status-Advances false (some deletion_attempted) h = inl refl
deleted_status-Advances true (some deletion_submitted) h = inl refl
deleted_status-Advances false (some deletion_submitted) h = inl refl

delete-Advances :
    (limits : Limits) (near : Proximity) (session : DeleteSession) (attempts : ℕ) (item : Item)
    (file : FileRow)
    → Advances delete_kind (stage_of_status file.status) (
        stage_of_status
          (delete_link_from_daily_item limits near session attempts
            (record { item = item; file = file })).daily.file.status)
delete-Advances limits near session attempts item file =
    rw ((delete_link-daily limits near session attempts item file).0)
      (elim (Bool-cases (lets_delete file.status)) [
        | inl goes_on ↦ rw goes_on (deleted_status-Advances _ file.status goes_on)
        | inr refused ↦ rw refused (inl refl)
      ])

uploaded_check-Advances :
    (limits : Limits) (expected : Metadata) (sight : Sight) (attempts errors : ℕ) (daily : Daily)
    → let checked = confirm_file_uploaded limits expected sight attempts errors daily in
      Advances
        (uploaded_kind (shows_expected expected sight))
        (stage_of_status daily.file.status)
        (stage_of_status checked.daily.file.status)
unfolding confirm_file_uploaded
uploaded_check-Advances limits expected none attempts errors daily =
    inl (ap stage_of_status (ground arith))
uploaded_check-Advances limits expected (some seen) attempts errors daily =
    elim (Bool-cases (is_confirmed_present daily.file.status)) [
      | inl settled ↦ rw settled (inl refl)
      | inr unsettled ↦ elim (Bool-cases (seen.exists && has_expected seen.metadata expected)) [
        | inl found ↦ rw (unsettled, found) (inr see_present)
        | inr missing ↦ rw (unsettled, missing) (inl refl)
      ]
    ]

deleted_check-Advances :
    (limits : Limits) (sight : Sight) (attempts errors : ℕ) (daily : Daily)
    → let checked = confirm_file_deleted limits sight attempts errors daily in
      Advances
        (deleted_kind (shows_absent sight))
        (stage_of_status daily.file.status)
        (stage_of_status checked.daily.file.status)
unfolding confirm_file_deleted
deleted_check-Advances limits none attempts errors daily = inl (ap stage_of_status (ground arith))
deleted_check-Advances limits (some seen) attempts errors daily =
    elim (Bool-cases (is_confirmed_absent daily.file.status)) [
      | inl settled ↦ rw settled (inl refl)
      | inr unsettled ↦ elim (Bool-cases (seen.exists)) [
        | inl found ↦ inl (ap stage_of_status (ground arith))
        | inr missing ↦ rw (unsettled, missing) (inr see_absent)
      ]
    ]

run_task-Advances :
    (limits : Limits) (near : Proximity) (task : Task) (item : Option Item) (file : Option FileRow)
    → Advances
        (kind task)
        (stage file)
        (stage (run_task limits near task (record { item = item; file = file })).file)
run_task-Advances limits near (upload link session attempts timeouts) item file =
    upload-Advances limits near link session attempts timeouts (record { item = item; file = file })
run_task-Advances limits near (delete session attempts) (some item) (some file) =
    delete-Advances limits near session attempts item file
run_task-Advances limits near (check_uploaded expected sight attempts errors) (some item)
      (some file) =
    uploaded_check-Advances limits expected sight attempts errors
      (record { item = item; file = file })
run_task-Advances limits near (check_deleted sight attempts errors) (some item) (some file) =
    deleted_check-Advances limits sight attempts errors (record { item = item; file = file })
run_task-Advances limits near (delete session attempts) none file = inl refl
run_task-Advances limits near (delete session attempts) (some item) none = inl refl
run_task-Advances limits near (check_uploaded expected sight attempts errors) none file = inl refl
run_task-Advances limits near (check_uploaded expected sight attempts errors) (some item) none =
    inl refl
run_task-Advances limits near (check_deleted sight attempts errors) none file = inl refl
run_task-Advances limits near (check_deleted sight attempts errors) (some item) none = inl refl

Advances-Walks :
    {k : Kind} {ks : List Kind} {s t u : Stage} → Advances k s t → Walks ks t u → Walks (k ∷ ks) s u
Advances-Walks {k} {ks} {u = u} (inl e) walk = stayed (subst (λ v. Walks ks v u) e walk)
Advances-Walks (inr turn) walk = turned turn walk

-- In any sequence of the four tasks, in whatever order, and whatever the archive answers, each task
-- leaves the stage of a link's file as it is or makes a turn of its own kind: an upload begins only where
-- the file is absent, a deletion only where it is present; a confirmation makes it present, from any
-- stage, only if the archive shows the file with the expected metadata, and another makes it absent
-- only if the archive shows that it is gone.
pub run_tasks-Walks :
    (limits : Limits) (near : Proximity) (tasks : List Task) (rows : Rows)
    → Walks (map kind tasks) (stage rows.file) (stage (run_tasks limits near tasks rows).file)
unfolding run_tasks
run_tasks-Walks limits near [] rows = ended
run_tasks-Walks limits near (task ∷ tasks) rows =
    Advances-Walks (run_task-Advances limits near task rows.item rows.file)
      (run_tasks-Walks limits near tasks (run_task limits near task rows))
