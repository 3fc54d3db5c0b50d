-- ===== src/Capture/Outcome.antt =====
-- When a capture succeeds, and what its link shows then.
use perma.Prelude.{
  ℕ, ◌+◌, ◌≡◌, ◌≤◌, refl, Bool, true, false, not, ◌&&◌, Option, none, some, List, [], ◌∷◌, arith,
  if◌then◌else◌, Bool-cases, inl, inr,
}
use perma.CaptureQueue.{Status, in_progress, completed, failed}
use perma.Capture.{
  Capturing, Service, Message, primary, capture_pending, mark_completed, mark_failed, settle_job,
  capture_with_scoop, try_capture, finish, can_play_back, succeeds, poll, Reply, finished,
  still_running, network_error, raised, Polled, done, interrupted, attempt_capture,
}

-- A reserved job whose link has the placeholder that `post` creates.
abbrev pub fresh_job : ℕ → Option Message → Capturing
fresh_job attempt message = record {
  status = in_progress;
  message = message;
  attempt = attempt;
  superseded = false;
  user_deleted = false;
  cached_can_play_back = none;
  captures = record { role = primary; status = capture_pending } ∷ [];
}

abbrev pub plays_back : Capturing → Bool
plays_back job =
    can_play_back job.cached_can_play_back job.user_deleted (some (job.superseded, job.status))
      job.captures

-- Everything that a capture needs: it is set up, Scoop accepts it and ends in success before the loop gives
-- up, and no later step raises an exception.
abbrev pub goes_well : ℕ → Service → Bool
goes_well limit service =
    service.names_software
    && service.sets_up
    && (service.accepts && succeeds (poll limit 0 service.replies) service.records)
    && service.archives
    && service.saves_primary
    && service.describes

settled :
    (service : Service) (success : Bool) (attempt : ℕ) (message : Option Message)
    → (let job = settle_job (finish service success (fresh_job attempt message)) in
        (job.status ≡ (
          if success && service.archives && service.saves_primary && service.describes
          then completed
          else failed))
        × (plays_back job
            ≡ (success && service.archives && service.saves_primary && service.describes))
        × (job.attempt ≡ attempt))
unfolding settle_job finish mark_completed mark_failed can_play_back
settled service false attempt message = (refl, refl, refl)
settled service true attempt message = elim (Bool-cases service.archives) [
  | inr a ↦ rw a (refl, refl, refl)
  | inl a ↦ elim (Bool-cases service.saves_primary) [
    | inr b ↦ rw (a, b) (refl, refl, refl)
    | inl b ↦ elim (Bool-cases service.describes) [
      | inr c ↦ rw (a, b, c) (refl, refl, refl)
      | inl c ↦ rw (a, b, c) (refl, refl, refl)
    ]
  ]
]

-- The status in which a capture leaves a fresh job.
abbrev pub final_status : ℕ → Service → Status
final_status limit service =
    if not service.names_software
    then in_progress
    else if goes_well limit service
    then completed
    else failed

-- Given that the writes that end a capture succeed, a capture of a fresh job counts one attempt if it is
-- set up, and none if an exception is raised before. The job is completed, and its link can be played back,
-- exactly if everything goes well. In every other case the link cannot be played back, and the job is
-- failed, except that an exception in the first save, before the `try` block, leaves it in progress.
pub capture_with_scoop_outcome :
    (limit : ℕ) (service : Service) (attempt : ℕ) (message : Option Message)
    → (let job = capture_with_scoop limit service (fresh_job attempt message) in
        (job.status ≡ final_status limit service)
        × (plays_back job ≡ goes_well limit service)
        × (job.attempt
            ≡ (if service.names_software && service.sets_up then attempt + 1 else attempt)))
unfolding capture_with_scoop try_capture attempt_capture can_play_back
capture_with_scoop_outcome limit service attempt message =
    elim (Bool-cases service.names_software) [
      | inr unnamed ↦ simp unnamed (refl, refl, refl)
      | inl named ↦ elim (Bool-cases service.sets_up) [
        | inr unset ↦ simp (named, unset) (settled service false attempt message)
        | inl set_up ↦
            simp (named, set_up)
              (settled service
                (service.accepts && succeeds (poll limit 0 service.replies) service.records)
                (attempt + 1) message)
      ]
    ]

-- The errors among the replies before Scoop's final one.
abbrev pub network_errors : List Reply → ℕ
network_errors [] = 0
network_errors (network_error ∷ replies) = 1 + network_errors replies
network_errors (finished success ∷ replies) = 0
network_errors (still_running ∷ replies) = network_errors replies
network_errors (raised ∷ replies) = network_errors replies

-- The first reply that is not a poll to be repeated.
abbrev pub final_reply : List Reply → Polled
final_reply [] = interrupted
final_reply (network_error ∷ replies) = final_reply replies
final_reply (still_running ∷ replies) = final_reply replies
final_reply (raised ∷ replies) = interrupted
final_reply (finished success ∷ replies) = done success

-- The polling loop is patient: as long as there are no more network errors than the limit allows, it ends
-- with the final reply, however many polls that takes.
pub poll-final_reply :
    (limit errors : ℕ) (replies : List Reply)
    → errors + network_errors replies ≤ limit
    → poll limit errors replies ≡ final_reply replies
unfolding poll
poll-final_reply limit errors [] h = refl
poll-final_reply limit errors (network_error ∷ replies) h =
    ground (arith, poll-final_reply limit (errors + 1) replies (omega (arith, h)))
poll-final_reply limit errors (still_running ∷ replies) h =
    ground (arith, poll-final_reply limit errors replies h)
poll-final_reply limit errors (raised ∷ replies) h = ground arith
poll-final_reply limit errors (finished success ∷ replies) h = ground arith
