-- ===== src/CaptureQueue/Fair/Place.antt =====
-- The place that `save` gives to a new job.
use mathlib.Core.List.{append-nil, head-eq_of_cons-eq}
use mathlib.Core.Path.{subst}
use perma.Prelude.{
  ℕ, ◌≡◌, refl, ap, inl, inr, Bool, true, false, ◌&&◌, none, some, List, [], ◌∷◌, ◌++◌, ◌==◌, All,
  All-filter_if, All-of_every, All-imp, Bool-cases, Option-cases, filter_if, sym, All-under,
  All-zip, All-of_guarded,
}
use perma.CaptureQueue.{
  OrderNumbers, CaptureJob, is_pending, same_bool, before_second_job, descending, take_others,
  max_order, jobs_after_own, last_place, chosen_place, new_order,
}
use perma.CaptureQueue.Fair.Sorted.{
  OrderLaws, Below, IsAscending, IsDescending, IsSpaced, descending-IsDescending,
  take_others-IsDescending, reverse-IsAscending, All-reverse, All-of_descending,
}
use perma.CaptureQueue.Fair.Split.{
  OneEach, IsPlaced, before_second_job-some, before_second_job-none, NextRepeats, seen_after,
}

module _ {Order : Type 0} {numbers : OrderNumbers Order} (laws : OrderLaws numbers) where
  open numbers use {lt, next}

  -- The pending jobs of one queue.
  abbrev pub queue : Bool → List (CaptureJob Order) → List (CaptureJob Order)
  queue human = filter_if (λ job. is_pending job.status && same_bool job.human human)

  below_next :
      (job : CaptureJob Order) (top : Order)
      → lt top job.order ≡ false
      → lt job.order (next top) ≡ true
  below_next job top h = elim (laws.lt_split top (next top) job.order (laws.lt-next top)) [
    | inl above ↦ cc
    | inr below ↦ below
  ]

  NotAbove : Order → List (CaptureJob Order) → Type 0
  NotAbove top = All (λ job. lt top job.order ≡ false)

  NotAbove-higher :
      (top top' : Order) (jobs : List (CaptureJob Order))
      → lt top top' ≡ true
      → NotAbove top jobs
      → NotAbove top' jobs
  unfolding NotAbove
  NotAbove-higher top top' [] h k = tt
  NotAbove-higher top top' (job ∷ jobs) h (k, ks) = (
    elim (Bool-cases (lt top' job.order)) [
      | inl above ↦ cc (laws.lt_trans top top' job.order h above)
      | inr below ↦ below
    ],
    NotAbove-higher top top' jobs h ks,
  )

  max_order_bounds : (jobs : List (CaptureJob Order)) → NotAbove (max_order numbers jobs) jobs
  unfolding NotAbove
  max_order_bounds [] = tt
  max_order_bounds (job ∷ jobs) = elim (Bool-cases (lt (max_order numbers jobs) job.order)) [
    | inl higher ↦
        subst (λ top. NotAbove top (job ∷ jobs)) (sym (rw higher))
          (
            laws.lt_irrefl job.order,
            NotAbove-higher (max_order numbers jobs) job.order jobs higher (max_order_bounds jobs),
          )
    | inr lower ↦
        subst (λ top. NotAbove top (job ∷ jobs)) (sym (rw lower)) (lower, max_order_bounds jobs)
  ]

  -- At the end of an ascending queue, after each of its jobs.
  last_place_after :
      (job : CaptureJob Order) (rest jobs : List (CaptureJob Order))
      → IsAscending laws (job ∷ rest)
      → All (λ other. lt other.order (last_place numbers (job ∷ rest) jobs) ≡ true) (job ∷ rest)
  last_place_after job [] jobs h = (laws.lt-next job.order, tt)
  last_place_after job (second ∷ rest) jobs ((b, bs), h) =
      let (above, aboves) = last_place_after second rest jobs h in
      (
        laws.lt_trans job.order second.order (last_place numbers (second ∷ rest) jobs) b.0 above,
        (above, aboves),
      )

  IsPlaced-last :
      (job : CaptureJob Order) (rest jobs : List (CaptureJob Order))
      → IsAscending laws (job ∷ rest)
      → OneEach (job.link_creator ∷ []) rest
      → IsPlaced numbers [] (job ∷ rest) (last_place numbers (job ∷ rest) jobs)
  IsPlaced-last job rest jobs asc each = record {
    earlier = job ∷ rest;
    later = [];
    whole = sym (append-nil (job ∷ rest));
    earlier_first = last_place_after job rest jobs asc;
    later_after = tt;
    one_each = (refl, each);
    next_repeats = tt;
  }

  IsPlaced-in :
      (after jobs : List (CaptureJob Order))
      → IsAscending laws after
      → IsPlaced numbers [] after
          (chosen_place numbers (before_second_job numbers [] none after) after jobs)
  IsPlaced-in [] jobs asc = record {
    earlier = [];
    later = [];
    whole = refl;
    earlier_first = tt;
    later_after = tt;
    one_each = tt;
    next_repeats = tt;
  }
  IsPlaced-in (job ∷ rest) jobs asc =
      elim (Option-cases (before_second_job numbers (job.link_creator ∷ []) (some job) rest)) [
        | inl at_end ↦ rw at_end (
            IsPlaced-last job rest jobs asc
              (before_second_job-none laws (job.link_creator ∷ []) job rest at_end))
        | inr (place, found) ↦
            let (above, placed) =
              before_second_job-some laws (job.link_creator ∷ []) job rest place asc found in
            rw (found) (
              rw (laws.zero_least job.order place above) (record {
                earlier = job ∷ placed.earlier;
                later = placed.later;
                whole = ap (λ r. job ∷ r) placed.whole;
                earlier_first = (above, placed.earlier_first);
                later_after = placed.later_after;
                one_each = (refl, placed.one_each);
                next_repeats = placed.next_repeats;
              }))
      ]

  -- If any two orders of the queue have room between them, then among the jobs that come after the
  -- user's last one, the new job stands behind at most one job of each user, and right before a
  -- second one, or at the end.
  pub new_order-IsPlaced :
      (user : ℕ) (human : Bool) (jobs : List (CaptureJob Order))
      → IsSpaced laws (queue human jobs)
      → IsPlaced numbers []
          (jobs_after_own numbers user human jobs)
          (new_order numbers user human jobs)
  unfolding new_order
  new_order-IsPlaced user human jobs spaced =
      IsPlaced-in (jobs_after_own numbers user human jobs) jobs (
        reverse-IsAscending laws (take_others numbers user (descending numbers (queue human jobs)))
          (take_others-IsDescending laws user (descending numbers (queue human jobs))
            (descending-IsDescending laws (queue human jobs) spaced)))

  -- If the job is the user's, it is below all the others.
  abbrev IsBelowAll : ℕ → List (CaptureJob Order) → CaptureJob Order → Type 0
  IsBelowAll user others own =
      (own.created_by_id == user) ≡ true → All (λ other. lt own.order other.order ≡ true) others

  All-IsBelowAll :
      (job : CaptureJob Order) (others jobs : List (CaptureJob Order)) (user : ℕ)
      → All (λ own. Below laws own job) jobs
      → All (IsBelowAll user others) jobs
      → All (IsBelowAll user (job ∷ others)) jobs
  All-IsBelowAll job others [] user b h = tt
  All-IsBelowAll job others (own ∷ jobs) user (b, bs) (h, hs) =
      ((λ e. (b.0, h e)), All-IsBelowAll job others jobs user bs hs)

  -- Each of the user's own jobs is below each job that comes after the last of them.
  own_below_others :
      (user : ℕ) (jobs : List (CaptureJob Order))
      → IsDescending laws jobs
      → All (IsBelowAll user (take_others numbers user jobs)) jobs
  own_below_others user [] h = tt
  own_below_others user (job ∷ jobs) (h, hs) = elim (Bool-cases (job.created_by_id == user)) [
    | inl own ↦
        let e : take_others numbers user (job ∷ jobs) ≡ [] = rw own in
        subst (λ taken. All (IsBelowAll user taken) (job ∷ jobs)) (sym e)
          ((λ _. tt), All-of_every (IsBelowAll user []) (λ j _. tt) jobs)
    | inr other ↦
        let e : take_others numbers user (job ∷ jobs) ≡ job ∷ take_others numbers user jobs =
          rw other in
        subst (λ taken. All (IsBelowAll user taken) (job ∷ jobs)) (sym e)
          (
            (λ own. cc),
            All-IsBelowAll job (take_others numbers user jobs) jobs user h
                (own_below_others user jobs hs),
          )
  ]

  -- Below the first job that comes after, below the new one.
  below_place :
      (order place : Order) (after : List (CaptureJob Order))
      → IsPlaced numbers [] after place
      → All (λ other. lt order other.order ≡ true) after
      → (after ≡ [] → lt order place ≡ true)
      → lt order place ≡ true
  below_place order place [] placed b at_end = at_end refl
  below_place order place (first ∷ after) placed (b, bs) at_end =
      go placed.earlier placed.later placed.whole placed.earlier_first placed.next_repeats
    where
      go :
          (earlier later : List (CaptureJob Order))
          → first ∷ after ≡ earlier ++ later
          → All (λ job. lt job.order place ≡ true) earlier
          → NextRepeats (seen_after [] earlier) later
          → lt order place ≡ true
      go [] [] e h r = cc
      go [] (next_job ∷ later) e h r = cc
      go (job ∷ earlier) later e (h, hs) r =
          laws.lt_trans order first.order place b (rw (head-eq_of_cons-eq e) h)

  new_order_end :
      (user : ℕ) (human : Bool) (jobs : List (CaptureJob Order))
      → jobs_after_own numbers user human jobs ≡ []
      → new_order numbers user human jobs ≡ next (max_order numbers jobs)
  unfolding new_order
  new_order_end user human jobs e =
      ap (λ after. chosen_place numbers (before_second_job numbers [] none after) after jobs) e

  below_end :
      (user : ℕ) (human : Bool) (jobs : List (CaptureJob Order))
      → jobs_after_own numbers user human jobs ≡ []
      → All (λ job. lt job.order (new_order numbers user human jobs) ≡ true) jobs
  below_end user human jobs e = rw (new_order_end user human jobs e) (
      All-imp (λ job. lt (max_order numbers jobs) job.order ≡ false)
        (λ job. lt job.order (next (max_order numbers jobs)) ≡ true)
        (λ job. below_next job (max_order numbers jobs)) jobs
        (unfold NotAbove in max_order_bounds jobs))

  own_order_below :
      (user : ℕ) (human : Bool) (jobs : List (CaptureJob Order))
      → IsSpaced laws (queue human jobs)
      → All
          (λ own.
            (own.created_by_id == user) ≡ true
            → lt own.order (new_order numbers user human jobs) ≡ true)
          (queue human jobs)
  own_order_below user human jobs spaced =
      let sorted = descending numbers (queue human jobs) in
      let after = jobs_after_own numbers user human jobs in
      let place = new_order numbers user human jobs in
      let AtEnd : CaptureJob Order → Type 0 = λ job. after ≡ [] → lt job.order place ≡ true in
      let own_first =
        All-of_descending numbers (IsBelowAll user (take_others numbers user sorted))
          (queue human jobs)
          (own_below_others user sorted (descending-IsDescending laws (queue human jobs) spaced)) in
      let at_end =
        All-under (λ (job : CaptureJob Order). lt job.order place ≡ true) (queue human jobs)
          (λ e.
            All-filter_if (λ job. lt job.order place ≡ true)
              (λ job. is_pending job.status && same_bool job.human human) jobs
              (below_end user human jobs e)) in
      All-imp (λ own. IsBelowAll user (take_others numbers user sorted) own × AtEnd own)
        (λ own. (own.created_by_id == user) ≡ true → lt own.order place ≡ true)
        (λ own (b, last) mine.
          below_place own.order place after (new_order-IsPlaced user human jobs spaced)
            (All-reverse laws (λ other. lt own.order other.order ≡ true)
              (take_others numbers user sorted) (b mine))
            last)
        (queue human jobs)
        (All-zip (IsBelowAll user (take_others numbers user sorted)) AtEnd (queue human jobs)
          own_first at_end)

  -- If any two orders of the queue have room between them, the new job comes after every pending job
  -- of its user.
  pub new_order_after_own :
      (user : ℕ) (human : Bool) (jobs : List (CaptureJob Order))
      → IsSpaced laws (queue human jobs)
      → All
          (λ own. lt own.order (new_order numbers user human jobs) ≡ true)
          (filter_if (λ own. own.created_by_id == user) (queue human jobs))
  new_order_after_own user human jobs spaced =
      All-of_guarded (λ own. lt own.order (new_order numbers user human jobs) ≡ true)
        (λ own. own.created_by_id == user) (queue human jobs)
        (own_order_below user human jobs spaced)
