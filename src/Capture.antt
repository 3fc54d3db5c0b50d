-- ===== src/Capture.antt =====
-- The capture task: `capture_with_scoop`, `clean_up_failed_captures` and `run_next_capture` of
-- perma_web/perma/celery_tasks.py, with `mark_completed` and `mark_failed` of a capture job and
-- `can_play_back` of a link (perma_web/perma/models/link.py). What the Scoop service replies, and where a
-- step raises an exception, are arguments; the writes that end a capture, those of the job's last status and
-- of the captures that are still pending, raise none.
pub mod Settled
pub mod Outcome
use perma.Prelude.{
  ℕ, ◌+◌, Bool, true, false, not, ◌&&◌, ◌||◌, Option, none, some, List, [], ◌∷◌, ◌++◌, ltb,
  if◌then◌else◌, any_of,
}
use perma.CaptureQueue.{Status, pending, in_progress, completed, deleted, failed, invalid}

pub data Role : Type 0 where
  primary screenshot attachment : Role

-- The status of a capture, which has no other values.
pub data CaptureStatus : Type 0 where
  capture_pending capture_success capture_failed : CaptureStatus

pub record CaptureRow : Type 0 where
  pub role : Role
  pub status : CaptureStatus

pub data Message : Type 0 where
  timed_out failed_during_capture invalid_engine : Message

-- A capture job with its link: `user_deleted`, `cached_can_play_back` and `captures` are the link's.
pub record Capturing : Type 0 where
  pub status : Status
  pub message : Option Message
  pub attempt : ℕ
  pub superseded : Bool
  pub user_deleted : Bool
  pub cached_can_play_back : Option Bool
  pub captures : List CaptureRow

abbrev pub is_primary : CaptureRow → Bool
is_primary row = elim (row.role) [ primary ↦ true | _ ↦ false ]

abbrev pub is_pending_row : CaptureRow → Bool
is_pending_row row = elim (row.status) [ capture_pending ↦ true | _ ↦ false ]

abbrev pub is_success_row : CaptureRow → Bool
is_success_row row = elim (row.status) [ capture_success ↦ true | _ ↦ false ]

-- `mark_completed`: a job without captures is not marked complete.
abbrev pub has_no_rows : List CaptureRow → Bool
has_no_rows [] = true
has_no_rows (row ∷ rows) = false

abbrev pub is_completed : Status → Bool
is_completed completed = true
is_completed _ = false

unfoldable pub mark_completed : Status → Capturing → Capturing
mark_completed status job = record job {
  status = if is_completed status && has_no_rows job.captures then failed else status;
}

unfoldable pub mark_failed : Message → Capturing → Capturing
mark_failed message job = mark_completed failed (record job { message = some message })

-- `captures.filter(status='pending').update(status='failed')`
abbrev pub fail_row : CaptureRow → CaptureRow
fail_row row = if is_pending_row row then record row { status = capture_failed } else row

abbrev pub fail_pending : List CaptureRow → List CaptureRow
fail_pending [] = []
fail_pending (row ∷ rows) = fail_row row ∷ fail_pending rows

-- `primary_capture`, as its status.
abbrev pub primary_status : List CaptureRow → Option CaptureStatus
primary_status [] = none
primary_status (row ∷ rows) =
    let rest = primary_status rows in if is_primary row then some row.status else rest

abbrev pub succeed_primary : List CaptureRow → List CaptureRow
succeed_primary [] = []
succeed_primary (row ∷ rows) =
    let rest = succeed_primary rows in
    if is_primary row then record row { status = capture_success } ∷ rows else row ∷ rest

-- What one poll of the Scoop service comes to.
pub data Reply : Type 0 where
  still_running : Reply
  network_error : Reply
  raised : Reply
  finished : Bool → Reply

-- The ways out of the polling loop.
pub data Polled : Type 0 where
  gave_up : Polled
  interrupted : Polled
  done : Bool → Polled

-- The `while True` loop. The soft time limit ends it where the replies end.
unfoldable pub poll : ℕ → ℕ → List Reply → Polled
poll limit errors [] = interrupted
poll limit errors (network_error ∷ replies) =
    let rest = poll limit (errors + 1) replies in if ltb limit errors then gave_up else rest
poll limit errors (still_running ∷ replies) =
    let rest = poll limit errors replies in if ltb limit errors then gave_up else rest
poll limit errors (raised ∷ replies) = if ltb limit errors then gave_up else interrupted
poll limit errors (finished success ∷ replies) = if ltb limit errors then gave_up else done success

-- What the service and the steps that call it do during one capture.
pub record Service : Type 0 where
  -- `captured_by_software` is saved on the link, before the `try` block.
  pub names_software : Bool
  -- The URL, the choice of the Scoop instance and the first progress message succeed.
  pub sets_up : Bool
  -- The counted attempt is saved, the request for the capture answered, and its id saved.
  pub accepts : Bool
  pub replies : List Reply
  -- Recording the facts, the state and the logs succeeds.
  pub records : Bool
  -- `save_scoop_archive` succeeds.
  pub archives : Bool
  -- The primary capture is saved as a success.
  pub saves_primary : Bool
  -- The attachments that `save_archive_metadata` records, and whether it gets to its end.
  pub attachments : List CaptureRow
  pub describes : Bool

-- Where the `try` block of `capture_with_scoop` ends: it returned early, or with this value of `success`.
pub data Attempt : Type 0 where
  returned : Capturing → Attempt
  attempted : Bool → Capturing → Attempt

abbrev pub succeeds : Polled → Bool → Bool
succeeds (done success) records = success && records
succeeds gave_up records = false
succeeds interrupted records = false

abbrev pub is_capturable : Option CaptureStatus → Bool
is_capturable (some capture_pending) = true
is_capturable _ = false

-- The `try` block once it is set up.
unfoldable pub attempt_capture : ℕ → Service → Capturing → Attempt
attempt_capture limit service job = elim (primary_status job.captures) [
  | none ↦ if job.user_deleted then returned (mark_completed deleted job) else attempted false job
  | some status ↦
      if job.user_deleted || not (is_capturable (some status))
      then returned (mark_completed deleted job)
      else attempted (service.accepts && succeeds (poll limit 0 service.replies) service.records)
          (record job { attempt = job.attempt + 1 })
]

-- An exception while it is set up leaves `success` false, or unbound: reading it then raises once more, in
-- the inner `try` of the `finally` block.
unfoldable pub try_capture : ℕ → Service → Capturing → Attempt
try_capture limit service job =
    if service.sets_up then attempt_capture limit service job else attempted false job

-- The inner `try` of the `finally` block: the archive, the metadata, the completion.
unfoldable pub finish : Service → Bool → Capturing → Capturing
finish service false job = job
finish service true job =
    if not service.archives || not service.saves_primary
    then job
    else let described : Capturing = record job {
      captures = succeed_primary job.captures ++ service.attachments;
    } in
      if service.describes then mark_completed completed described else described

abbrev pub is_in_progress : Status → Bool
is_in_progress in_progress = true
is_in_progress _ = false

-- The `finally` block's own `finally`.
unfoldable pub settle_job : Capturing → Capturing
settle_job job =
    let swept : Capturing = record job { captures = fail_pending job.captures } in
    if is_in_progress job.status then mark_failed failed_during_capture swept else swept

-- The `finally` block.
abbrev pub conclude : Service → Attempt → Capturing
conclude service (returned left) = settle_job left
conclude service (attempted success left) = settle_job (finish service success left)

-- An exception before the `try` block leaves the job as it is, and ends the task.
unfoldable pub capture_with_scoop : ℕ → Service → Capturing → Capturing
capture_with_scoop limit service job =
    if service.names_software then conclude service (try_capture limit service job) else job

-- A job of `clean_up_failed_captures`: in progress, and past the time limit.
unfoldable pub clean_up : Bool → Capturing → Capturing
clean_up is_overdue job =
    if is_in_progress job.status && is_overdue
    then record (mark_failed timed_out job) {
      captures = fail_pending (mark_failed timed_out job).captures;
    }
    else job

-- The reserved job of `run_next_capture`, whichever engine is set.
unfoldable pub run_capture : Bool → ℕ → Service → Capturing → Capturing
run_capture uses_scoop limit service job =
    if uses_scoop
    then capture_with_scoop limit service job
    else mark_failed invalid_engine (record job { captures = fail_pending job.captures })

-- `CAN_PLAY_BACK_FILTER`
abbrev pub is_playable : CaptureRow → Bool
is_playable row = elim (row.role) [ attachment ↦ false | _ ↦ is_success_row row ]

abbrev pub has_successful_capture : List CaptureRow → Bool
has_successful_capture = any_of is_playable

-- `job` is none for a link that has no capture job: (superseded, status).
unfoldable pub can_play_back : Option Bool → Bool → Option (Bool × Status) → List CaptureRow → Bool
can_play_back (some cached) user_deleted job captures = cached
can_play_back none true job captures = false
can_play_back none false none captures = has_successful_capture captures
can_play_back none false (some (superseded, status)) captures =
    if not superseded && not (is_completed status) then false else has_successful_capture captures
