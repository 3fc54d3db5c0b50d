-- ===== src/InternetArchive/Queueing.antt =====
-- How tasks are queued: `queue_batched_tasks` and the functions of perma_web/perma/celery_tasks.py that
-- queue uploads, deletions and their confirmations. Queues, queries and times are arguments.
use perma.Prelude.{
  ℕ, ◌+◌, ◌-◌, ◌*◌, min, Bool, true, false, not, ◌&&◌, ◌||◌, Option, none, some, List, [], ◌∷◌,
  ◌++◌, map, ltb, leb, ◌==◌, if◌then◌else◌, filter_if, length, take,
}
use perma.InternetArchive.{
  FileStatus, upload_submitted, deletion_submitted, confirmed_present, deletion_attempted, Item,
}
use perma.InternetArchive.Upload.{Standing, ineligible_for_ia}

-- The `remainder` of `queue_batched_tasks`.
abbrev pub last_batch : List ℕ → List (List ℕ)
last_batch [] = []
last_batch (pk ∷ pks) = (pk ∷ pks) ∷ []

-- Its loop, with `pks` the batch that is being filled.
unfoldable pub batches_from : ℕ → List ℕ → List ℕ → List (List ℕ)
batches_from batch_size pks [] = last_batch pks
batches_from batch_size pks (pk ∷ query) =
    let grown : List ℕ = pks ++ (pk ∷ []) in
    let is_full : Bool = leb batch_size (length grown) in
    let rest : List (List ℕ) = batches_from batch_size (if is_full then [] else grown) query in
    if is_full then grown ∷ rest else rest

unfoldable pub queue_batched_tasks : ℕ → List ℕ → List (List ℕ)
queue_batched_tasks batch_size = batches_from batch_size []

-- `query[:limit]`, where `None` is no limit.
abbrev pub first_of : {A : Type 0} → Option ℕ → List A → List A
first_of none rows = rows
first_of (some limit) rows = take limit rows

-- A file in the queries of the confirmation tasks; `is_barred` is one of the four items with no access.
pub record FileKey : Type 0 where
  pub id : ℕ
  pub status : Option FileStatus
  pub is_barred : Bool

abbrev pub is_upload_submitted : Option FileStatus → Bool
is_upload_submitted (some upload_submitted) = true
is_upload_submitted _ = false

abbrev pub is_deletion_submitted : Option FileStatus → Bool
is_deletion_submitted (some deletion_submitted) = true
is_deletion_submitted _ = false

abbrev pub queue_confirmations : (Option FileStatus → Bool) → ℕ → Option ℕ → List FileKey → List ℕ
queue_confirmations is_submitted tasks_in_ia_readonly_queue limit files =
    if tasks_in_ia_readonly_queue == 0
    then map (λ (file : FileKey). file.id)
        (first_of limit
          (filter_if (λ (file : FileKey). is_submitted file.status && not file.is_barred) files))
    else []

unfoldable pub queue_file_uploaded_confirmation_tasks : ℕ → Option ℕ → List FileKey → List ℕ
queue_file_uploaded_confirmation_tasks = queue_confirmations is_upload_submitted

unfoldable pub queue_file_deleted_confirmation_tasks : ℕ → Option ℕ → List FileKey → List ℕ
queue_file_deleted_confirmation_tasks = queue_confirmations is_deletion_submitted

-- A link that is not deleted, with the status of its file in a daily item, if it has one.
pub record ArchivedLink : Type 0 where
  pub guid : ℕ
  pub standing : Standing
  pub daily_file : Option (Option FileStatus)

abbrev pub is_to_delete : Option (Option FileStatus) → Bool
is_to_delete (some (some confirmed_present)) = true
is_to_delete (some (some deletion_attempted)) = true
is_to_delete _ = false

-- What is left of a task: the guids it queued, or an `IndexError`.
pub data Queued : Type 0 where
  queued : List ℕ → Queued
  index_error : Queued

-- `queued[0]` and `queued[-1]` in the message.
abbrev pub reported : List ℕ → Queued
reported [] = index_error
reported (guid ∷ guids) = queued (guid ∷ guids)

-- `before_timeout` is how many tasks are queued before the soft time limit, if it strikes.
unfoldable pub queue_internet_archive_deletions : Option ℕ → Option ℕ → List ArchivedLink → Queued
queue_internet_archive_deletions limit before_timeout links = reported (
    map (λ (link : ArchivedLink). link.guid)
      (first_of before_timeout (
        first_of limit (
          filter_if
            (λ (link : ArchivedLink).
              ineligible_for_ia link.standing && is_to_delete link.daily_file)
            links))))

-- One day of the range: its item with the start of the item's span, and the result of
-- `ia_upload_pending` without its limit.
pub record Day : Type 0 where
  pub is_barred : Bool
  pub item : Option Item
  pub span_start : ℕ
  pub pending : List ℕ

pub record DayQueued : Type 0 where
  pub guids : List ℕ
  pub marks_complete : Bool

abbrev pub nothing_queued : DayQueued
nothing_queued = record { guids = []; marks_complete = false }

abbrev pub three_days : ℕ
three_days = 3 * 86400

abbrev pub has_old_item : ℕ → Day → Bool
has_old_item now day = elim (day.item) [
  | none ↦ false
  | some item ↦ ltb (day.span_start + three_days) now
]

-- `if limit: query = query[:limit]`
abbrev pub limited_to : ℕ → List ℕ → List ℕ
limited_to limit guids = if limit == 0 then guids else take limit guids

-- With nothing to queue, the item of a day that is long over is complete.
abbrev pub queued_for_date : Bool → List ℕ → DayQueued
queued_for_date is_over [] = record { guids = []; marks_complete = is_over }
queued_for_date is_over (guid ∷ guids) = record { guids = guid ∷ guids; marks_complete = false }

unfoldable pub queue_internet_archive_uploads_for_date : ℕ → ℕ → Day → DayQueued
queue_internet_archive_uploads_for_date now limit day =
    queued_for_date (has_old_item now day) (limited_to limit day.pending)

abbrev pub in_flight : Option Item → ℕ
in_flight none = 0
in_flight (some item) = item.tasks_in_progress

abbrev pub is_complete : Option Item → Bool
is_complete none = false
is_complete (some item) = item.complete

-- `min(daily_limit, to_queue - total_queued) - in_flight_for_this_day`, if it is positive.
abbrev pub bucket_limit : ℕ → ℕ → Day → ℕ
bucket_limit daily_limit room day = min daily_limit room - in_flight day.item

abbrev pub queue_day : ℕ → ℕ → ℕ → Day → DayQueued
queue_day now daily_limit room day =
    if day.is_barred || is_complete day.item || bucket_limit daily_limit room day == 0
    then nothing_queued
    else queue_internet_archive_uploads_for_date now (bucket_limit daily_limit room day) day

abbrev pub queue_day_if : Bool → ℕ → ℕ → ℕ → Day → DayQueued
queue_day_if true now daily_limit room day = queue_day now daily_limit room day
queue_day_if false now daily_limit room day = nothing_queued

-- The loop over the days. After the `break` no day has room.
unfoldable pub queue_days : ℕ → ℕ → ℕ → ℕ → List Day → List (Day × DayQueued)
queue_days now daily_limit to_queue total_queued [] = []
queue_days now daily_limit to_queue total_queued (day ∷ days) =
    let outcome : DayQueued =
      queue_day_if (ltb total_queued to_queue) now daily_limit (to_queue - total_queued) day in
    (day, outcome) ∷ queue_days now daily_limit to_queue (total_queued + length outcome.guids) days

abbrev pub at_most : Option ℕ → ℕ → ℕ
at_most none n = n
at_most (some limit) n = if limit == 0 then n else min n limit

-- `most` is `INTERNET_ARCHIVE_MAX_SIMULTANEOUS_UPLOADS`.
unfoldable pub conditionally_queue_uploads :
    ℕ → ℕ → ℕ → ℕ → ℕ → Option ℕ → List Day → List (Day × DayQueued)
conditionally_queue_uploads now tasks_in_ia_queue most tasks_in_flight daily_limit limit days =
    if not (tasks_in_ia_queue == 0) || ltb most tasks_in_flight
    then []
    else queue_days now daily_limit (at_most limit (most - tasks_in_flight)) 0 days
