-- ===== src/Examples/Queue.antt =====
-- A queue whose orders are fixed-point numbers, sixteen to the unit.
use perma.Prelude.{
  Bool-cases, ℕ, ◌≡◌, ◌+◌, ◌-◌, ◌/◌, inl, inr, refl, true, false, not, ◌&&◌, List, [], ◌∷◌, arith,
  ltb, leb, ◌==◌, if◌then◌else◌, count_if, filter_if, All,
}
use perma.CaptureQueue.{
  pending, OrderNumbers, CaptureJob, jobs_after_own, new_order, is_pending, precedes,
  queue_position,
}
use perma.CaptureQueue.Fair.Sorted.{OrderLaws, IsSpaced}
use perma.CaptureQueue.Fair.Split.{IsPlaced}
use perma.CaptureQueue.Fair.Place.{queue, new_order-IsPlaced, new_order_after_own}
use perma.CaptureQueue.Claims.{
  Pool, idle, Reach, here, later, choose, reserve_chosen, claim, HandedOnce, Reach-HandedOnce,
  set_worker, chosen,
}
use perma.CaptureQueue.Position.{queue_position_rank}

abbrev fixed_point : OrderNumbers ℕ
fixed_point = record {
  is_zero = λ a. a == 0;
  lt = ltb;
  zero_order = 0;
  next = λ a. a + 16;
  between = λ a b. a + (b - a) / 2;
}

abbrev fixed_point-OrderLaws : OrderLaws fixed_point
fixed_point-OrderLaws = record {
  apart = λ a b. leb (a + 2) b;
  lt_trans = λ a b c h k. ground arith;
  lt_irrefl = λ a. ground arith;
  lt_split = λ a b c h. elim (Bool-cases (ltb a c)) [ inl y ↦ inl y | inr n ↦ inr (ground arith) ];
  lt-next = λ a. ground arith;
  lt-between = λ a b h k. ground arith;
  between-lt = λ a b h k. ground arith;
  zero_least = λ a b h. ground arith;
}

abbrev job : ℕ → ℕ → ℕ → CaptureJob ℕ
job pk user order = record {
  pk = pk;
  created_by_id = user;
  link_creator = user;
  link_deleted = false;
  human = true;
  status = pending;
  order = order;
}

-- User 1 has one job in front; user 2 has two jobs, and user 3 one.
abbrev jobs : List (CaptureJob ℕ)
jobs = job 1 1 16 ∷ job 2 2 32 ∷ job 3 3 48 ∷ job 4 2 64 ∷ []

jobs-IsSpaced : IsSpaced fixed_point-OrderLaws (queue fixed_point-OrderLaws true jobs)
jobs-IsSpaced = (
  (inl (refl, refl), (inl (refl, refl), (inl (refl, refl), tt))),
  ((inl (refl, refl), (inl (refl, refl), tt)), ((inl (refl, refl), tt), (tt, tt))),
)

new_order-IsPlaced_example :
    IsPlaced fixed_point []
      (jobs_after_own fixed_point 1 true jobs)
      (new_order fixed_point 1 true jobs)
new_order-IsPlaced_example = new_order-IsPlaced fixed_point-OrderLaws 1 true jobs jobs-IsSpaced

new_order_after_own_example :
    All
      (λ own. ltb own.order (new_order fixed_point 1 true jobs) ≡ true)
      (filter_if (λ own. own.created_by_id == 1) (queue fixed_point-OrderLaws true jobs))
new_order_after_own_example = new_order_after_own fixed_point-OrderLaws 1 true jobs jobs-IsSpaced

queue_position_rank_example : queue_position fixed_point (job 2 2 32) jobs ≡ (
    if true
    then count_if
        (λ other. is_pending other.status && not (precedes fixed_point (job 2 2 32) other))
        jobs
    else 0)
queue_position_rank_example = queue_position_rank fixed_point-OrderLaws (job 2 2 32) jobs (
  (λ h k l. ground arith),
  ((λ h k l. ground arith), ((λ h k l. ground arith), ((λ h k l. ground arith), tt))),
)

-- Two workers choose the same job, and both try to reserve it.
abbrev start : Pool ℕ
start = record { jobs = jobs; workers = λ w. idle; claims = [] }

abbrev both_chose : Pool ℕ
both_chose = record start {
  workers = set_worker 2 (chosen 1) (set_worker 1 (chosen 1) start.workers);
}

abbrev after_race : Pool ℕ
after_race = claim fixed_point 2 1 (claim fixed_point 1 1 both_chose)

race : Reach fixed_point start after_race
unfolding claim
race =
    later
      (later (later (later here (choose 1 (job 1 1 16) refl)) (choose 2 (job 1 1 16) refl))
        (reserve_chosen 1 1 refl))
      (reserve_chosen 2 1 refl)

Reach-HandedOnce_example : HandedOnce after_race.claims
Reach-HandedOnce_example = Reach-HandedOnce fixed_point refl race
