-- ===== src/CaptureQueue.antt =====
-- The queue of capture jobs: `CaptureJob` of perma_web/perma/models/link.py. `save` places a new job,
-- `get_next_job` hands jobs to workers, and `queue_position` reports a job's place.
pub mod Fair
pub mod Claims
pub mod Position
use perma.Prelude.{
  ℕ, ◌+◌, Bool, true, false, not, ◌&&◌, ◌||◌, Option, none, some, List, [], ◌∷◌, reverse, ltb, leb,
  ◌==◌, if◌then◌else◌, count_if, filter_if, any_of, is_some,
}

pub data Status : Type 0 where
  pending in_progress completed deleted failed invalid : Status

abbrev pub is_pending : Status → Bool
is_pending pending = true
is_pending _ = false

-- `order` is a float that is never negative. What the queue computes with it:
pub record OrderNumbers (Order : Type 0) : Type 0 where
  pub is_zero : Order → Bool
  pub lt : Order → Order → Bool
  pub zero_order : Order
  -- `x + 1`
  pub next : Order → Order
  -- `x + (y - x)/2`
  pub between : Order → Order → Order

-- `order` is `none` before the first `save`. `link_creator` is `job.link.created_by_id`, and
-- `link_deleted` is `job.link.user_deleted`.
pub record CaptureJob (Order : Type 0) : Type 0 where
  pub pk : ℕ
  pub created_by_id : ℕ
  pub link_creator : ℕ
  pub link_deleted : Bool
  pub human : Bool
  pub status : Status
  pub order : Order

abbrev pub same_bool : Bool → Bool → Bool
same_bool true b = b
same_bool false b = not b

module _ {Order : Type 0} (numbers : OrderNumbers Order) where
  open numbers use {is_zero, lt, zero_order, next, between}

  -- `order_by('-order')`
  abbrev pub insert_descending :
      CaptureJob Order → List (CaptureJob Order) → List (CaptureJob Order)
  insert_descending job [] = job ∷ []
  insert_descending job (head ∷ jobs) =
      let rest = insert_descending job jobs in
      if lt job.order head.order then head ∷ rest else job ∷ head ∷ jobs

  abbrev pub descending : List (CaptureJob Order) → List (CaptureJob Order)
  descending [] = []
  descending (job ∷ jobs) = insert_descending job (descending jobs)

  -- `itertools.takewhile(lambda x: x.created_by_id != user, jobs)`
  abbrev pub take_others : ℕ → List (CaptureJob Order) → List (CaptureJob Order)
  take_others user [] = []
  take_others user (job ∷ jobs) =
      let rest = take_others user jobs in if job.created_by_id == user then [] else job ∷ rest

  -- The loop of `save` over the jobs after this user's last one: `seen` holds the keys of `next_jobs`.
  abbrev pub before_second_job :
      List ℕ → Option (CaptureJob Order) → List (CaptureJob Order) → Option Order
  before_second_job seen last [] = none
  before_second_job seen last (job ∷ jobs) =
      let rest = before_second_job (job.link_creator ∷ seen) (some job) jobs in
      if any_of (λ user. user == job.link_creator) seen
      then elim last [ none ↦ none | some earlier ↦ some (between earlier.order job.order) ]
      else rest

  -- `aggregate(Max('order'))['order__max'] or 0`
  abbrev pub max_order : List (CaptureJob Order) → Order
  max_order [] = zero_order
  max_order (job ∷ jobs) =
      let rest = max_order jobs in if lt rest job.order then job.order else rest

  abbrev pub last_of : List (CaptureJob Order) → Option (CaptureJob Order)
  last_of [] = none
  last_of (job ∷ []) = some job
  last_of (job ∷ next_job ∷ jobs) = last_of (next_job ∷ jobs)

  -- The pending jobs of one queue after the user's last job, in the order of their processing.
  abbrev pub jobs_after_own : ℕ → Bool → List (CaptureJob Order) → List (CaptureJob Order)
  jobs_after_own user human jobs = reverse (
      take_others user
        (descending (filter_if (λ job. is_pending job.status && same_bool job.human human) jobs)))

  -- The place at the end: after the last of those jobs, or after all jobs there are.
  abbrev pub last_place : List (CaptureJob Order) → List (CaptureJob Order) → Order
  last_place after jobs = elim (last_of after) [
    | none ↦ next (max_order jobs)
    | some last ↦ next last.order
  ]

  abbrev pub chosen_place : Option Order → List (CaptureJob Order) → List (CaptureJob Order) → Order
  chosen_place none after jobs = last_place after jobs
  chosen_place (some order) after jobs = if is_zero order then last_place after jobs else order

  -- `CaptureJob.save` for a job with no order yet, over all the jobs of the table.
  unfoldable pub new_order : ℕ → Bool → List (CaptureJob Order) → Order
  new_order user human jobs =
      let after = jobs_after_own user human jobs in
      chosen_place (before_second_job [] none after) after jobs

  -- `order_by('-human', 'order', 'pk')`: does the first job come strictly before the second?
  abbrev pub precedes : CaptureJob Order → CaptureJob Order → Bool
  precedes a b =
      if same_bool a.human b.human
      then lt a.order b.order || not (lt b.order a.order) && ltb a.pk b.pk
      else a.human

  -- `filter(status='pending').order_by('-human', 'order', 'pk').first()`
  abbrev pub first_pending : List (CaptureJob Order) → Option (CaptureJob Order)
  first_pending [] = none
  first_pending (job ∷ jobs) =
      let best = first_pending jobs in
      if is_pending job.status
      then elim best [
        | none ↦ some job
        | some other ↦ if precedes other job then some other else some job
      ]
      else best

  -- The cleanup at the start of `get_next_job`.
  abbrev pub drop_deleted : List (CaptureJob Order) → List (CaptureJob Order)
  drop_deleted [] = []
  drop_deleted (job ∷ jobs) =
      (if job.link_deleted && is_pending job.status then record job { status = deleted } else job)
      ∷ drop_deleted jobs

  -- `filter(status='pending', pk=pk).update(status='in_progress', …)`, with the number of rows.
  abbrev pub reserve : ℕ → List (CaptureJob Order) → ℕ × List (CaptureJob Order)
  reserve pk [] = (0, [])
  reserve pk (job ∷ jobs) =
      let (updated, rest) = reserve pk jobs in
      if is_pending job.status && job.pk == pk
      then (updated + 1, record job { status = in_progress } ∷ rest)
      else (updated, job ∷ rest)

  -- `queue_position`
  unfoldable pub queue_position : CaptureJob Order → List (CaptureJob Order) → ℕ
  queue_position self jobs =
      let position =
        count_if
          (λ job.
            is_pending job.status
            && not (lt self.order job.order)
            && same_bool job.human self.human)
          jobs in
      if not (is_pending self.status)
      then 0
      else if self.human
      then position
      else position + count_if (λ job. is_pending job.status && job.human) jobs
