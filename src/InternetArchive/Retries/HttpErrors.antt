-- ===== src/InternetArchive/Retries/HttpErrors.antt =====
-- The retries of an upload after an HTTP error, which `CONNECTION_ERRORS` of
-- perma_web/perma/celery_tasks.py contains.
use perma.Prelude.{
  ℕ, suc, ◌≡◌, ap, refl, Bool, true, false, Option, none, some, List, [], ◌∷◌, length, All,
}
use perma.InternetArchive.{
  FileRow, Item, Daily, Limits, Proximity, Complaint, set_status, count_task, upload_attempted,
  requeue,
}
use perma.InternetArchive.Upload.{
  upload_http_error, UploadSession, on_reply, is_rate_limited, lets_upload, attempt_upload,
  Standing, can_upload_to_internet_archive, item_or_new, Rows, Uploaded,
  upload_link_to_internet_archive, upload_file, new_file,
}
use perma.InternetArchive.Retries.{run_count}

-- A session that the archive ends with an HTTP error, of whatever text.
abbrev pub IsHttpError : Proximity → UploadSession → Type 0
IsHttpError near session =
    (is_rate_limited near session ≡ false)
    × (session.has_item ≡ true)
    × ((complaint : Complaint) × (session.reply ≡ upload_http_error complaint))

-- A file that is new, or has a status that lets its upload go on.
abbrev pub lets_upload_file : Option FileRow → Bool
lets_upload_file none = true
lets_upload_file (some file) = lets_upload file.status

attempt_upload-http_error :
    (limits : Limits) (near : Proximity) (session : UploadSession) (attempts timeouts : ℕ)
    (daily : Daily)
    → IsHttpError near session
    → attempt_upload limits near session attempts timeouts daily
      ≡ requeue (attempts, timeouts) (set_status upload_attempted (count_task daily))
unfolding attempt_upload on_reply
attempt_upload-http_error limits near session attempts timeouts daily
      (admitted, found, (complaint, failed)) =
    rw (admitted, found, failed) refl

-- The rows and arguments of a run that starts over.
abbrev StartsOver : ℕ → ℕ → Uploaded → Type 0
StartsOver attempts timeouts uploaded =
    (uploaded.again ≡ some (attempts, timeouts)) × (lets_upload_file uploaded.rows.file ≡ true)

upload_file-StartsOver :
    (limits : Limits) (near : Proximity) (session : UploadSession) (attempts timeouts : ℕ)
    (item : Item) (file : Option FileRow)
    → IsHttpError near session
    → lets_upload_file file ≡ true
    → StartsOver attempts timeouts (upload_file limits near session attempts timeouts item file)
upload_file-StartsOver limits near session attempts timeouts item none h k =
    rw
      (attempt_upload-http_error limits near session attempts timeouts
        (record { item = item; file = new_file }) h)
      (refl, refl)
upload_file-StartsOver limits near session attempts timeouts item (some file) h k =
    rw
      (
        k,
        attempt_upload-http_error limits near session attempts timeouts
            (record { item = item; file = file }) h,
      )
      (refl, refl)

upload_link-StartsOver :
    (limits : Limits) (near : Proximity) (link : Standing) (session : UploadSession)
    (attempts timeouts : ℕ) (rows : Rows)
    → can_upload_to_internet_archive link ≡ true
    → IsHttpError near session
    → lets_upload_file rows.file ≡ true
    → StartsOver attempts timeouts
        (upload_link_to_internet_archive limits near link session attempts timeouts rows)
unfolding upload_link_to_internet_archive
upload_link-StartsOver limits near link session attempts timeouts rows e h k = rw e (
    upload_file-StartsOver limits near session attempts timeouts (item_or_new rows.item) rows.file h
      k)

-- An upload that the archive refuses with an HTTP error, a request to reduce the rate included, is
-- tried again each time, whatever the limits on retries are: as many runs as there are refusals, for a
-- link that may be uploaded and a file that is new or whose status lets its upload go on.
pub run_count-http_errors :
    (limits : Limits) (near : Proximity) (link : Standing) (sessions : List UploadSession)
    (attempts timeouts : ℕ) (rows : Rows)
    → can_upload_to_internet_archive link ≡ true
    → All (IsHttpError near) sessions
    → lets_upload_file rows.file ≡ true
    → run_count limits near link sessions attempts timeouts rows ≡ length sessions
unfolding run_count
run_count-http_errors limits near link [] attempts timeouts rows e hs k = refl
run_count-http_errors limits near link (session ∷ sessions) attempts timeouts rows e (h, hs) k =
    let uploaded =
      upload_link_to_internet_archive limits near link session attempts timeouts rows in
    let over = upload_link-StartsOver limits near link session attempts timeouts rows e h k in
    rw (over.0) (
      ap suc (
        run_count-http_errors limits near link sessions attempts timeouts uploaded.rows e hs
          over.1))
