-- ===== src/CaptureQueue/Fair/Split.antt =====
-- The loop of `save`: it stops before the first job whose user already had one.
use perma.Prelude.{
  ℕ, ◌≡◌, refl, ap, inl, inr, Bool, true, false, none, some, List, [], ◌∷◌, ◌++◌, ◌==◌, All,
  Bool-cases, any_of,
}
use perma.CaptureQueue.{OrderNumbers, CaptureJob, before_second_job}
use perma.CaptureQueue.Fair.Sorted.{OrderLaws, Below, IsAscending}

module _ {Order : Type 0} where
  abbrev pub was_seen : List ℕ → CaptureJob Order → Bool
  was_seen seen job = any_of (λ user. user == job.link_creator) seen

  -- No user has two of these jobs, and none of the users was seen before.
  abbrev pub OneEach : List ℕ → List (CaptureJob Order) → Type 0
  OneEach seen [] = Unit
  OneEach seen (job ∷ jobs) = (was_seen seen job ≡ false) × OneEach (job.link_creator ∷ seen) jobs

  abbrev pub seen_after : List ℕ → List (CaptureJob Order) → List ℕ
  seen_after seen [] = seen
  seen_after seen (job ∷ jobs) = seen_after (job.link_creator ∷ seen) jobs

  -- There is no next job, or it is a second job of its user.
  abbrev pub NextRepeats : List ℕ → List (CaptureJob Order) → Type 0
  NextRepeats seen [] = Unit
  NextRepeats seen (job ∷ jobs) = was_seen seen job ≡ true

-- A place in the queue: what comes before it and what comes after it.
pub record IsPlaced {Order : Type 0} (numbers : OrderNumbers Order) (seen : List ℕ)
    (jobs : List (CaptureJob Order)) (place : Order) : Type 0 where
  pub earlier : List (CaptureJob Order)
  pub later : List (CaptureJob Order)
  pub whole : jobs ≡ earlier ++ later
  pub earlier_first : All (λ job. numbers.lt job.order place ≡ true) earlier
  pub later_after : All (λ job. numbers.lt place job.order ≡ true) later
  pub one_each : OneEach seen earlier
  pub next_repeats : NextRepeats (seen_after seen earlier) later

module _ {Order : Type 0} {numbers : OrderNumbers Order} (laws : OrderLaws numbers) where
  open numbers use {lt, between}

  All-above :
      (place : Order) (job : CaptureJob Order) (jobs : List (CaptureJob Order))
      → lt place job.order ≡ true
      → All (λ other. Below laws job other) jobs
      → All (λ other. lt place other.order ≡ true) jobs
  All-above place job [] h b = tt
  All-above place job (other ∷ jobs) h (b, bs) =
      (laws.lt_trans place job.order other.order h b.0, All-above place job jobs h bs)

  -- After `last`, the loop finds a place above it.
  pub before_second_job-some :
      (seen : List ℕ) (last : CaptureJob Order) (jobs : List (CaptureJob Order)) (place : Order)
      → IsAscending laws (last ∷ jobs)
      → before_second_job numbers seen (some last) jobs ≡ some place
      → (lt last.order place ≡ true) × IsPlaced numbers seen jobs place
  before_second_job-some seen last [] place asc e = cc
  before_second_job-some seen last (job ∷ jobs) place ((b, bs), (h, hs)) e =
      elim (Bool-cases (was_seen seen job)) [
        | inl second ↦
            let same : some (between last.order job.order) ≡ some place = rw second at e in
            let at_midpoint : between last.order job.order ≡ place = cc in
            let above : lt place job.order ≡ true =
              rw (← at_midpoint) (laws.between-lt last.order job.order b.0 b.1) in
            (
              rw (← at_midpoint) (laws.lt-between last.order job.order b.0 b.1),
              record {
                earlier = [];
                later = job ∷ jobs;
                whole = refl;
                earlier_first = tt;
                later_after = (above, All-above place job jobs above h);
                one_each = tt;
                next_repeats = second;
              },
            )
        | inr first ↦
            let (above, placed) =
              before_second_job-some (job.link_creator ∷ seen) job jobs place (h, hs)
                (rw first at e) in
            (
              laws.lt_trans last.order job.order place b.0 above,
              record {
                earlier = job ∷ placed.earlier;
                later = placed.later;
                whole = ap (λ r. job ∷ r) placed.whole;
                earlier_first = (above, placed.earlier_first);
                later_after = placed.later_after;
                one_each = (first, placed.one_each);
                next_repeats = placed.next_repeats;
              },
            )
      ]

  -- Where the loop finds no place, no user has two jobs.
  pub before_second_job-none :
      (seen : List ℕ) (last : CaptureJob Order) (jobs : List (CaptureJob Order))
      → before_second_job numbers seen (some last) jobs ≡ none
      → OneEach seen jobs
  before_second_job-none seen last [] e = tt
  before_second_job-none seen last (job ∷ jobs) e = elim (Bool-cases (was_seen seen job)) [
    | inl second ↦ let f : some (between last.order job.order) ≡ none = rw second at e in cc
    | inr first ↦ (first, before_second_job-none (job.link_creator ∷ seen) job jobs (rw first at e))
  ]
