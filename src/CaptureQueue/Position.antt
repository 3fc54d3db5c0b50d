-- ===== src/CaptureQueue/Position.antt =====
-- `queue_position` counts the waiting jobs that `get_next_job` would hand out no later than this one.
use perma.Prelude.{
  ◌+◌, ◌≡◌, true, false, not, ◌&&◌, List, [], ◌∷◌, arith, if◌then◌else◌, All, Bool-cases, inl, inr,
  indicator, count_if,
}
use perma.CaptureQueue.{OrderNumbers, CaptureJob, is_pending, same_bool, precedes, queue_position}
use perma.CaptureQueue.Fair.Sorted.{OrderLaws}

module _ {Order : Type 0} {numbers : OrderNumbers Order} (laws : OrderLaws numbers)
    (self : CaptureJob Order) where
  open numbers use {lt}

  -- Only the job itself shares its order among the jobs of its queue.
  abbrev pub HasOwnOrder : CaptureJob Order → Type 0
  HasOwnOrder job =
      same_bool self.human job.human ≡ true
      → lt self.order job.order ≡ false
      → lt job.order self.order ≡ false
      → job.pk ≡ self.pk

  -- The test that the human queue's count makes of one job, and the second count's test.
  one_counted :
      (job : CaptureJob Order)
      → HasOwnOrder job
      → indicator (
            is_pending job.status
            && not (lt self.order job.order)
            && same_bool job.human self.human)
          + (if self.human then 0 else indicator (is_pending job.status && job.human))
        ≡ indicator (is_pending job.status && not (precedes numbers self job))
  one_counted job own = elim (Bool-cases (lt self.order job.order)) [
    | inl before ↦ ground (arith, laws.lt_irrefl self.order)
    | inr after ↦ elim (Bool-cases (lt job.order self.order)) [
      | inl first ↦ ground arith
      | inr level ↦ ground arith
    ]
  ]

  All-counted :
      (jobs : List (CaptureJob Order))
      → All HasOwnOrder jobs
      → count_if
            (λ job.
              is_pending job.status
              && not (lt self.order job.order)
              && same_bool job.human self.human)
            jobs
          + (if self.human then 0 else count_if (λ job. is_pending job.status && job.human) jobs)
        ≡ count_if (λ job. is_pending job.status && not (precedes numbers self job)) jobs
  All-counted [] h = ground arith
  All-counted (job ∷ jobs) (h, hs) = ground (arith, one_counted job h, All-counted jobs hs)

  -- If no other job of its queue has its order, the position of a waiting job is the number of
  -- waiting jobs that it does not precede, itself among them; any other job's position is 0.
  pub queue_position_rank :
      (jobs : List (CaptureJob Order))
      → All HasOwnOrder jobs
      → queue_position numbers self jobs ≡ (
          if is_pending self.status
          then count_if (λ job. is_pending job.status && not (precedes numbers self job)) jobs
          else 0)
  unfolding queue_position
  queue_position_rank jobs h = ground (arith, All-counted jobs h)
