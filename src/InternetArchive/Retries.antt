-- ===== src/InternetArchive/Retries.antt =====
-- How often a task is queued again: `retry_upload` in perma_web/perma/celery_tasks.py, and its limits.
pub mod HttpErrors
use perma.Prelude.{
  ℕ, zero, suc, ◌+◌, ◌-◌, ◌≡◌, ◌≤◌, ◌<◌, ◌⊎◌, inl, inr, ap, refl, Bool, true, false, not, ◌&&◌,
  ◌||◌, Option, none, some, List, [], ◌∷◌, arith, ltb, ◌==◌, if◌then◌else◌, length, All, Bool-cases,
}
use perma.InternetArchive.{
  FileRow, Item, Daily, Limits, may_retry, Proximity, Complaint, reduce_rate, bucket_busy,
  other_complaint, Ran, set_status, count_task, upload_attempted, requeue,
}
use perma.InternetArchive.Upload.{
  UploadReply, upload_ok, upload_timed_out, upload_connection_error, upload_uncaught,
  upload_http_error, upload_not_ok, UploadSession, on_reply, is_rate_limited, lets_upload,
  attempt_upload, Standing, can_upload_to_internet_archive, item_or_new, Rows, Uploaded,
  upload_link_to_internet_archive, upload_file, new_file,
}

-- One run, and those of the task that it queues.
abbrev pub runs_after : (ℕ → ℕ → ℕ) → Option (ℕ × ℕ) → ℕ
runs_after next none = 1
runs_after next (some (a, t)) = suc (next a t)

-- How many times the task runs for one link, if the archive answers as the list says.
unfoldable pub run_count : Limits → Proximity → Standing → List UploadSession → ℕ → ℕ → Rows → ℕ
run_count limits near link [] attempts timeouts rows = 0
run_count limits near link (session ∷ sessions) attempts timeouts rows =
    let uploaded =
      upload_link_to_internet_archive limits near link session attempts timeouts rows in
    runs_after (λ a t. run_count limits near link sessions a t uploaded.rows) uploaded.again

-- The replies after which `attempts` or `timeouts` grows.
abbrev pub is_counted : UploadReply → Bool
is_counted upload_connection_error = false
is_counted (upload_http_error complaint) = false
is_counted (upload_not_ok bucket_busy) = false
is_counted _ = true

-- A session with no uncounted reason to queue the task again.
abbrev pub IsCounted : UploadSession → Type 0
IsCounted session = (session.has_item && is_counted session.reply) ≡ true

-- No limit is off.
abbrev pub HasLimits : Limits → Type 0
HasLimits limits = (0 < limits.ratelimiting) × (0 < limits.max_timeouts) × (0 < limits.errors)

-- What is left of the counted retries.
abbrev pub retries_left : Limits → ℕ → ℕ → ℕ
retries_left limits attempts timeouts =
    (limits.ratelimiting + limits.errors - attempts) + (limits.max_timeouts - timeouts)

-- The arguments of a retry leave less.
abbrev pub LeavesLess : Limits → ℕ → ℕ → Option (ℕ × ℕ) → Type 0
LeavesLess limits attempts timeouts none = Unit
LeavesLess limits attempts timeouts (some (a, t)) =
    retries_left limits a t < retries_left limits attempts timeouts

on_reply-LeavesLess :
    (limits : Limits) (reply : UploadReply) (attempts timeouts : ℕ) (daily : Daily)
    → HasLimits limits
    → is_counted reply ≡ true
    → LeavesLess limits attempts timeouts (on_reply limits reply attempts timeouts daily).again
unfolding on_reply
on_reply-LeavesLess limits upload_ok attempts timeouts daily h c = tt
on_reply-LeavesLess limits upload_timed_out attempts timeouts daily h c =
    elim (Bool-cases (may_retry limits.max_timeouts timeouts)) [
      | inl again ↦ rw again (ground arith)
      | inr over ↦ rw over tt
    ]
on_reply-LeavesLess limits upload_connection_error attempts timeouts daily h c = cc
on_reply-LeavesLess limits upload_uncaught attempts timeouts daily h c = tt
on_reply-LeavesLess limits (upload_http_error complaint) attempts timeouts daily h c = cc
on_reply-LeavesLess limits (upload_not_ok reduce_rate) attempts timeouts daily h c =
    elim (Bool-cases (may_retry limits.ratelimiting attempts)) [
      | inl again ↦ rw again (ground arith)
      | inr over ↦ rw over tt
    ]
on_reply-LeavesLess limits (upload_not_ok bucket_busy) attempts timeouts daily h c = cc
on_reply-LeavesLess limits (upload_not_ok other_complaint) attempts timeouts daily h c =
    elim (Bool-cases (may_retry limits.errors attempts)) [
      | inl again ↦ rw again (ground arith)
      | inr over ↦ rw over tt
    ]

attempt_upload-LeavesLess :
    (limits : Limits) (near : Proximity) (session : UploadSession) (attempts timeouts : ℕ)
    (daily : Daily)
    → HasLimits limits
    → IsCounted session
    → LeavesLess limits attempts timeouts
        (attempt_upload limits near session attempts timeouts daily).again
unfolding attempt_upload
attempt_upload-LeavesLess limits near session attempts timeouts daily h c =
    elim (Bool-cases (is_rate_limited near session)) [
      | inl limited ↦ rw limited (elim (Bool-cases (may_retry limits.ratelimiting attempts)) [
        | inl again ↦ rw again (ground arith)
        | inr over ↦ rw over tt
      ])
      | inr admitted ↦
          let found : session.has_item ≡ true = ground arith in
          let counted : is_counted session.reply ≡ true = ground arith in
          rw (admitted, found)
            (on_reply-LeavesLess limits session.reply attempts timeouts
              (set_status upload_attempted (count_task daily)) h counted)
    ]

upload_file-LeavesLess :
    (limits : Limits) (near : Proximity) (session : UploadSession) (attempts timeouts : ℕ)
    (item : Item) (file : Option FileRow)
    → HasLimits limits
    → IsCounted session
    → LeavesLess limits attempts timeouts
        (upload_file limits near session attempts timeouts item file).again
upload_file-LeavesLess limits near session attempts timeouts item none h c =
    attempt_upload-LeavesLess limits near session attempts timeouts
      (record { item = item; file = new_file }) h c
upload_file-LeavesLess limits near session attempts timeouts item (some file) h c =
    elim (Bool-cases (lets_upload file.status)) [
      | inl goes_on ↦ rw goes_on (
          attempt_upload-LeavesLess limits near session attempts timeouts
            (record { item = item; file = file }) h c)
      | inr refused ↦ rw refused tt
    ]

upload_link-LeavesLess :
    (limits : Limits) (near : Proximity) (link : Standing) (session : UploadSession)
    (attempts timeouts : ℕ) (rows : Rows)
    → HasLimits limits
    → IsCounted session
    → LeavesLess limits attempts timeouts
        (upload_link_to_internet_archive limits near link session attempts timeouts rows).again
unfolding upload_link_to_internet_archive
upload_link-LeavesLess limits near link session attempts timeouts rows h c =
    elim (Bool-cases (can_upload_to_internet_archive link)) [
      | inl eligible ↦ rw eligible (
          upload_file-LeavesLess limits near session attempts timeouts (item_or_new rows.item)
            rows.file h c)
      | inr ineligible ↦ rw ineligible tt
    ]

-- The bound is kept over one retry.
next_run-bound :
    (limits : Limits) (attempts timeouts : ℕ) (next : ℕ → ℕ → ℕ)
    → ((a t : ℕ) → next a t ≤ 1 + retries_left limits a t)
    → (again : Option (ℕ × ℕ)) → LeavesLess limits attempts timeouts again
    → runs_after next again ≤ 1 + retries_left limits attempts timeouts
next_run-bound limits attempts timeouts next bound none less = omega arith
next_run-bound limits attempts timeouts next bound (some (a, t)) less = omega (arith, bound a t)

run_count-bound :
    (limits : Limits) (near : Proximity) (link : Standing) (sessions : List UploadSession)
    (attempts timeouts : ℕ) (rows : Rows)
    → HasLimits limits
    → All IsCounted sessions
    → run_count limits near link sessions attempts timeouts rows
      ≤ 1 + retries_left limits attempts timeouts
unfolding run_count
run_count-bound limits near link [] attempts timeouts rows h c = omega arith
run_count-bound limits near link (session ∷ sessions) attempts timeouts rows h (c, cs) =
    let uploaded =
      upload_link_to_internet_archive limits near link session attempts timeouts rows in
    next_run-bound limits attempts timeouts
      (λ a t. run_count limits near link sessions a t uploaded.rows)
      (λ a t. run_count-bound limits near link sessions a t uploaded.rows h cs) uploaded.again
      (upload_link-LeavesLess limits near link session attempts timeouts rows h c)

-- With no limit off, and as long as the archive always has the item and never answers with a
-- connection error, an HTTP error or a bucket that is being made, the upload of a link is tried at most
-- once and as often again as the limits on rate limiting, on other errors and on timeouts add up to,
-- however long the archive goes on to refuse it.
pub run_count-le-limits :
    (limits : Limits) (near : Proximity) (link : Standing) (sessions : List UploadSession)
    (rows : Rows)
    → HasLimits limits
    → All IsCounted sessions
    → run_count limits near link sessions 0 0 rows
      ≤ 1 + limits.ratelimiting + limits.errors + limits.max_timeouts
run_count-le-limits limits near link sessions rows h cs =
    omega (arith, run_count-bound limits near link sessions 0 0 rows h cs)
