-- ===== src/Examples/Tasks.antt =====
-- A capture that succeeds after a network error, and one whose engine is not set.
use perma.Prelude.{
  Bool, false, refl, ◌⊎◌, ◌&&◌, ◌≡◌, ◌+◌, true, none, List, [], ◌∷◌, arith, if◌then◌else◌,
}
use perma.Capture.{
  Service, Reply, network_error, still_running, finished, run_capture, poll, capture_with_scoop,
  capture_success, attachment, clean_up,
}
use perma.Capture.Settled.{IsSettled, run_capture-IsSettled}
use perma.Capture.Outcome.{
  fresh_job, final_status, plays_back, goes_well, capture_with_scoop_outcome, final_reply,
  poll-final_reply,
}

abbrev replies : List Reply
replies = still_running ∷ network_error ∷ still_running ∷ finished true ∷ []

abbrev service : Service
service = record {
  names_software = true;
  sets_up = true;
  accepts = true;
  replies = replies;
  records = true;
  archives = true;
  saves_primary = true;
  attachments = record { role = attachment; status = capture_success } ∷ [];
  describes = true;
}

run_capture-IsSettled_example :
    (IsSettled (run_capture true 5 service (fresh_job 0 none))
      ⊎ ((◌≡◌ {A = Bool} true true)
          × (service.names_software ≡ false)
          × (run_capture true 5 service (fresh_job 0 none) ≡ fresh_job 0 none)))
    × IsSettled (clean_up true (run_capture true 5 service (fresh_job 0 none)))
run_capture-IsSettled_example = run_capture-IsSettled true 5 service (fresh_job 0 none) refl

capture_with_scoop_outcome_example :
    (let job = capture_with_scoop 5 service (fresh_job 0 none) in
      (job.status ≡ final_status 5 service)
      × (plays_back job ≡ goes_well 5 service)
      × (job.attempt ≡ (if service.names_software && service.sets_up then 0 + 1 else 0)))
capture_with_scoop_outcome_example = capture_with_scoop_outcome 5 service 0 none

poll-final_reply_example : poll 5 0 replies ≡ final_reply replies
poll-final_reply_example = poll-final_reply 5 0 replies (omega arith)
