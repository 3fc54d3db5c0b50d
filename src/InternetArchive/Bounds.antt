-- ===== src/InternetArchive/Bounds.antt =====
-- What is queued: batches hold every key once, and uploads stay within their limits.
use mathlib.Core.List.{flatten, append_assoc, append-nil}
use perma.Prelude.{
  ℕ, zero, suc, ◌+◌, ◌-◌, ◌≤◌, ◌<◌, ◌≡◌, ◌⊎◌, inl, inr, refl, sym, ap, ◌∙◌, Bool, true, false, not,
  ◌||◌, Option, List, [], ◌∷◌, ◌++◌, arith, ltb, leb, ◌==◌, length, take, All, Bool-cases,
  length-append,
}
use perma.InternetArchive.Queueing.{
  last_batch, batches_from, queue_batched_tasks, Day, DayQueued, limited_to, in_flight,
  bucket_limit, queue_day, queue_day_if, queue_days, at_most, conditionally_queue_uploads,
  queue_internet_archive_uploads_for_date, has_old_item, queued_for_date, is_complete,
}

-- Every batch is full, but for the last, which has at least one key.
abbrev pub IsChunked : ℕ → List (List ℕ) → Type 0
IsChunked size [] = Unit
IsChunked size (batch ∷ []) = (1 ≤ length batch) × (length batch ≤ size)
IsChunked size (batch ∷ second ∷ batches) =
    (length batch ≡ size) × IsChunked size (second ∷ batches)

IsChunked-cons :
    (size : ℕ) (batch : List ℕ) (batches : List (List ℕ))
    → 1 ≤ size
    → length batch ≡ size
    → IsChunked size batches
    → IsChunked size (batch ∷ batches)
IsChunked-cons size batch [] h e c = (omega arith, omega arith)
IsChunked-cons size batch (second ∷ batches) h e c = (e, c)

last_batch-flatten : (pks : List ℕ) → flatten (last_batch pks) ≡ pks
unfolding flatten
last_batch-flatten [] = refl
last_batch-flatten (pk ∷ pks) = append-nil (pk ∷ pks)

last_batch-IsChunked :
    (size : ℕ) (pks : List ℕ) → length pks < size → IsChunked size (last_batch pks)
last_batch-IsChunked size [] h = tt
last_batch-IsChunked size (pk ∷ pks) h = (omega arith, omega arith)

batches_from-IsChunked :
    (size : ℕ) (pks query : List ℕ)
    → length pks < size
    → (flatten (batches_from size pks query) ≡ pks ++ query)
      × IsChunked size (batches_from size pks query)
unfolding batches_from flatten
batches_from-IsChunked size pks [] h =
    (last_batch-flatten pks ∙ sym (append-nil pks), last_batch-IsChunked size pks h)
batches_from-IsChunked size pks (pk ∷ query) h =
    let grown_length = length-append pks (pk ∷ []) in
    elim (Bool-cases (leb size (length (pks ++ (pk ∷ []))))) [
      | inl full ↦
          let ih = batches_from-IsChunked size [] query (omega arith) in
          rw full (
            ap (λ rest. (pks ++ (pk ∷ [])) ++ rest) ih.0 ∙ append_assoc pks (pk ∷ []) query,
            IsChunked-cons size (pks ++ (pk ∷ [])) (batches_from size [] query) (omega arith)
                (ground (arith, grown_length)) ih.1,
          )
      | inr more ↦
          let ih =
            batches_from-IsChunked size (pks ++ (pk ∷ [])) query (ground (arith, grown_length)) in
          rw more (ih.0 ∙ append_assoc pks (pk ∷ []) query, ih.1)
    ]

-- For a batch size above 0, the batches of `queue_batched_tasks` hold the keys of the query, all of
-- them, once each and in their order; every batch but the last has exactly the batch size, and the
-- last has at least one key and at most the batch size.
pub queue_batched_tasks-IsChunked :
    (size : ℕ) (query : List ℕ)
    → 1 ≤ size
    → (flatten (queue_batched_tasks size query) ≡ query)
      × IsChunked size (queue_batched_tasks size query)
unfolding queue_batched_tasks
queue_batched_tasks-IsChunked size query h = batches_from-IsChunked size [] query (omega arith)

-- A count of what was queued for all days together.
abbrev pub total_queued : List (Day × DayQueued) → ℕ
total_queued [] = 0
total_queued ((day, outcome) ∷ days) = length outcome.guids + total_queued days

-- On a day for which something is queued it is no more than the daily limit, less what is in flight.
abbrev pub IsWithin : ℕ → Day × DayQueued → Type 0
IsWithin daily_limit (day, outcome) =
    (outcome.guids ≡ []) ⊎ (length outcome.guids + in_flight day.item ≤ daily_limit)

length-take : (n : ℕ) (guids : List ℕ) → length (take n guids) ≤ n
length-take zero guids = omega arith
length-take (suc n) [] = omega arith
length-take (suc n) (guid ∷ guids) = omega (arith, length-take n guids)

limited_to-bound :
    (limit : ℕ) (pending : List ℕ)
    → (limit == 0) ≡ false
    → length (limited_to limit pending) ≤ limit
limited_to-bound limit pending h = rw h (length-take limit pending)

queued_for_date-guids :
    (is_over : Bool) (guids : List ℕ) → (queued_for_date is_over guids).guids ≡ guids
queued_for_date-guids is_over [] = refl
queued_for_date-guids is_over (guid ∷ guids) = refl

for_date-bound :
    (now limit : ℕ) (day : Day)
    → (limit == 0) ≡ false
    → length (queue_internet_archive_uploads_for_date now limit day).guids ≤ limit
unfolding queue_internet_archive_uploads_for_date
for_date-bound now limit day h =
    rw (queued_for_date-guids (has_old_item now day) (limited_to limit day.pending))
      (limited_to-bound limit day.pending h)

-- A queued day keeps to the room that is left, and to the daily limit.
queue_day-bound :
    (now daily_limit room : ℕ) (day : Day)
    → (length (queue_day now daily_limit room day).guids ≤ room)
      × IsWithin daily_limit (day, queue_day now daily_limit room day)
queue_day-bound now daily_limit room day =
    elim (Bool-cases
      (day.is_barred || is_complete day.item || bucket_limit daily_limit room day == 0)) [
        | inl skipped ↦ rw skipped (omega arith, inl refl)
        | inr open_day ↦
            let bound = for_date-bound now (bucket_limit daily_limit room day) day (ground arith) in
            rw open_day (ground arith, inr (ground arith))
      ]

queue_day_if-bound :
    (goes_on : Bool) (now daily_limit room : ℕ) (day : Day)
    → (length (queue_day_if goes_on now daily_limit room day).guids ≤ room)
      × IsWithin daily_limit (day, queue_day_if goes_on now daily_limit room day)
queue_day_if-bound true now daily_limit room day = queue_day-bound now daily_limit room day
queue_day_if-bound false now daily_limit room day = (omega arith, inl refl)

queue_days-bound :
    (now daily_limit to_queue queued : ℕ) (days : List Day)
    → queued ≤ to_queue
    → (queued + total_queued (queue_days now daily_limit to_queue queued days) ≤ to_queue)
      × All (IsWithin daily_limit) (queue_days now daily_limit to_queue queued days)
unfolding queue_days
queue_days-bound now daily_limit to_queue queued [] h = (omega arith, tt)
queue_days-bound now daily_limit to_queue queued (day ∷ days) h =
    let (fits, within) =
      queue_day_if-bound (ltb queued to_queue) now daily_limit (to_queue - queued) day in
    let ih =
      queue_days-bound now daily_limit to_queue
        (queued
          + length
              (queue_day_if (ltb queued to_queue) now daily_limit (to_queue - queued) day).guids)
        days (omega arith) in
    (omega arith, (within, ih.1))

-- Whatever the days hold, `conditionally_queue_internet_archive_uploads_for_date_range` queues at most
-- as many uploads as the maximum of simultaneous uploads leaves above those in flight, and at most its
-- `limit`, where one above 0 is given; and on each day for which it queues any, these and the tasks in
-- flight for that day's item are within the daily limit.
pub conditionally_queue_uploads-bound :
    (now tasks_in_ia_queue most tasks_in_flight daily_limit : ℕ) (limit : Option ℕ)
    (days : List Day)
    → let outcome =
        conditionally_queue_uploads now tasks_in_ia_queue most tasks_in_flight daily_limit limit
          days in
      (total_queued outcome ≤ at_most limit (most - tasks_in_flight))
      × All (IsWithin daily_limit) outcome
unfolding conditionally_queue_uploads
conditionally_queue_uploads-bound now tasks_in_ia_queue most tasks_in_flight daily_limit limit
      days =
    elim (Bool-cases (not (tasks_in_ia_queue == 0) || ltb most tasks_in_flight)) [
      | inl waits ↦ rw waits (omega arith, tt)
      | inr goes_on ↦
          let bound =
            queue_days-bound now daily_limit (at_most limit (most - tasks_in_flight)) 0 days
              (omega arith) in
          rw goes_on (omega arith, bound.1)
    ]
