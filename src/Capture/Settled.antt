-- ===== src/Capture/Settled.antt =====
-- After the capture task no capture and no job is left open.
use perma.Prelude.{
  ℕ, ◌≡◌, refl, Bool, true, false, ◌&&◌, ◌⊎◌, List, [], ◌∷◌, arith, Bool-cases, inl, inr, any_of,
}
use perma.CaptureQueue.{failed}
use perma.Capture.{
  Capturing, CaptureRow, Service, is_pending_row, mark_completed, mark_failed, fail_row,
  fail_pending, settle_job, capture_with_scoop, try_capture, finish, run_capture, clean_up,
  is_in_progress, invalid_engine, returned, attempted, Attempt, conclude,
}

-- No capture is pending, and the job is not in progress.
abbrev pub IsSettled : Capturing → Type 0
IsSettled job = (any_of is_pending_row job.captures ≡ false) × (is_in_progress job.status ≡ false)

fail_row-is_pending_row : (row : CaptureRow) → is_pending_row (fail_row row) ≡ false
fail_row-is_pending_row row = ground arith

fail_pending-none : (rows : List CaptureRow) → any_of is_pending_row (fail_pending rows) ≡ false
fail_pending-none [] = refl
fail_pending-none (row ∷ rows) = rw (fail_row-is_pending_row row, fail_pending-none rows) refl

settle_job-IsSettled : (job : Capturing) → IsSettled (settle_job job)
unfolding settle_job mark_failed mark_completed
settle_job-IsSettled job = elim (Bool-cases (is_in_progress job.status)) [
  | inl running ↦ rw running (fail_pending-none job.captures, refl)
  | inr closed ↦ rw closed (fail_pending-none job.captures, closed)
]

conclude-IsSettled : (service : Service) (outcome : Attempt) → IsSettled (conclude service outcome)
conclude-IsSettled service (returned left) = settle_job-IsSettled left
conclude-IsSettled service (attempted success left) =
    settle_job-IsSettled (finish service success left)

-- The clean-up settles every job in progress that is overdue, as failed.
pub clean_up-IsSettled :
    (is_overdue : Bool) (job : Capturing)
    → (is_in_progress job.status && is_overdue) ≡ true
    → IsSettled (clean_up is_overdue job) × ((clean_up is_overdue job).status ≡ failed)
unfolding clean_up mark_failed mark_completed
clean_up-IsSettled is_overdue job h = rw h ((fail_pending-none job.captures, refl), refl)

-- A settled job is none that the clean-up finds.
clean_up_again :
    (is_overdue : Bool) (job : Capturing) → IsSettled job → IsSettled (clean_up is_overdue job)
unfolding clean_up
clean_up_again is_overdue job h = rw (h.1) h

-- Given that the writes that end a capture succeed: for a job in progress, the capture task leaves no
-- capture of the link pending and the job not in progress, however Scoop replies and whichever other step
-- raises an exception, except that an exception in the first save, before the `try` block of
-- `capture_with_scoop`, leaves the job as it was. In every case the job is settled by the clean-up that
-- finds it past the time limit.
pub run_capture-IsSettled :
    (uses_scoop : Bool) (limit : ℕ) (service : Service) (job : Capturing)
    → is_in_progress job.status ≡ true
    → (IsSettled (run_capture uses_scoop limit service job)
        ⊎ ((uses_scoop ≡ true)
            × (service.names_software ≡ false)
            × (run_capture uses_scoop limit service job ≡ job)))
      × IsSettled (clean_up true (run_capture uses_scoop limit service job))
unfolding run_capture capture_with_scoop mark_failed mark_completed
run_capture-IsSettled true limit service job h = elim (Bool-cases service.names_software) [
  | inl named ↦
      let settled = conclude-IsSettled service (try_capture limit service job) in
      simp named (inl settled, clean_up_again true _ settled)
  | inr unnamed ↦ simp unnamed (inr (refl, refl, refl), (clean_up-IsSettled true job (rw h refl)).0)
]
run_capture-IsSettled false limit service job h =
    let closed = mark_failed invalid_engine (record job { captures = fail_pending job.captures }) in
    let settled : IsSettled closed = (fail_pending-none job.captures, refl) in
    (inl settled, clean_up_again true _ settled)
