-- ===== src/CaptureQueue/Claims.antt =====
-- Workers that call `get_next_job(reserve=True)` at once: choosing a job and claiming it are two
-- steps, and other workers act in between.
use perma.Prelude.{
  ℕ, ◌≡◌, refl, Bool, true, false, ◌&&◌, some, List, [], ◌∷◌, arith, ◌==◌, if◌then◌else◌, All,
  All-imp, Bool-cases, inl, inr, any_of, ap, ==_iff, ◌∙◌,
}
use perma.CaptureQueue.{
  Status, completed, failed, deleted, OrderNumbers, CaptureJob, is_pending, drop_deleted,
  first_pending, reserve,
}

-- What a worker knows between its two steps: nothing, or the job that it has read.
pub data Worker : Type 0 where
  idle : Worker
  chosen : ℕ → Worker

-- The table, the workers, and who was handed which job, the latest first.
pub record Pool (Order : Type 0) : Type 0 where
  pub jobs : List (CaptureJob Order)
  pub workers : ℕ → Worker
  pub claims : List (ℕ × ℕ)

abbrev pub set_worker : ℕ → Worker → (ℕ → Worker) → ℕ → Worker
set_worker w state workers v = if v == w then state else workers v

-- A job leaves the queue's hands: it is completed, failed or deleted.
abbrev pub is_settled : Status → Bool
is_settled completed = true
is_settled failed = true
is_settled deleted = true
is_settled _ = false

module _ {Order : Type 0} where
  -- The second half of the loop's body: `update_count` is 0 if another worker was faster, and the
  -- worker goes round again.
  unfoldable pub claim : (OrderNumbers Order) → ℕ → ℕ → Pool Order → Pool Order
  claim numbers w pk pool =
      let (update_count, jobs) = reserve numbers pk pool.jobs in
      if update_count == 0
      then record pool { workers = set_worker w idle pool.workers }
      else record pool {
        jobs = jobs;
        workers = set_worker w idle pool.workers;
        claims = (w, pk) ∷ pool.claims;
      }

  abbrev pub has_pk : ℕ → CaptureJob Order → Bool
  has_pk pk job = job.pk == pk

  abbrev pub settle : ℕ → Status → List (CaptureJob Order) → List (CaptureJob Order)
  settle pk status [] = []
  settle pk status (job ∷ jobs) =
      (if job.pk == pk then record job { status = status } else job) ∷ settle pk status jobs

module _ {Order : Type 0} (numbers : OrderNumbers Order) where
  -- One step of any worker, or of the rest of the program. A job enters the queue with a new key.
  pub data Step (pool : Pool Order) : Pool Order → Type 0 where
    clean : Step pool (record pool { jobs = drop_deleted numbers pool.jobs })
    choose :
        (w : ℕ) (job : CaptureJob Order)
        → first_pending numbers pool.jobs ≡ some job
        → Step pool (record pool { workers = set_worker w (chosen job.pk) pool.workers })
    reserve_chosen : (w pk : ℕ) → pool.workers w ≡ chosen pk → Step pool (claim numbers w pk pool)
    enter :
        (job : CaptureJob Order)
        → any_of (has_pk job.pk) pool.jobs ≡ false
        → Step pool (record pool { jobs = job ∷ pool.jobs })
    settled :
        (pk : ℕ) (status : Status)
        → is_settled status ≡ true
        → Step pool (record pool { jobs = settle pk status pool.jobs })

  pub data Reach (start : Pool Order) : Pool Order → Type 0 where
    here : Reach start start
    later : {pool after : Pool Order} → Reach start pool → Step pool after → Reach start after

-- No job was handed out twice.
abbrev pub HandedOnce : List (ℕ × ℕ) → Type 0
HandedOnce [] = Unit
HandedOnce ((w, pk) ∷ claims) = All (λ claim. (claim.1 == pk) ≡ false) claims × HandedOnce claims

module _ {Order : Type 0} (numbers : OrderNumbers Order) where
  -- Some row of this key is waiting in the queue.
  abbrev waits : ℕ → List (CaptureJob Order) → Bool
  waits pk = any_of (λ job. job.pk == pk && is_pending job.status)

  -- A job that was handed out has a row, which does not wait.
  abbrev IsHanded : List (CaptureJob Order) → ℕ × ℕ → Type 0
  IsHanded jobs claimed = (waits claimed.1 jobs ≡ false) × (any_of (has_pk claimed.1) jobs ≡ true)

  waits-drop_deleted :
      (pk : ℕ) (jobs : List (CaptureJob Order))
      → waits pk jobs ≡ false
      → waits pk (drop_deleted numbers jobs) ≡ false
  waits-drop_deleted pk [] h = h
  waits-drop_deleted pk (job ∷ jobs) h = ground (arith, waits-drop_deleted pk jobs)

  has-drop_deleted :
      (pk : ℕ) (jobs : List (CaptureJob Order))
      → any_of (has_pk pk) (drop_deleted numbers jobs) ≡ any_of (has_pk pk) jobs
  has-drop_deleted pk [] = refl
  has-drop_deleted pk (job ∷ jobs) = ground (arith, has-drop_deleted pk jobs)

  waits-reserve :
      (pk q : ℕ) (jobs : List (CaptureJob Order))
      → waits q jobs ≡ false
      → waits q (reserve numbers pk jobs).1 ≡ false
  waits-reserve pk q [] h = h
  waits-reserve pk q (job ∷ jobs) h = ground (arith, waits-reserve pk q jobs)

  has-reserve :
      (pk q : ℕ) (jobs : List (CaptureJob Order))
      → any_of (has_pk q) (reserve numbers pk jobs).1 ≡ any_of (has_pk q) jobs
  has-reserve pk q [] = refl
  has-reserve pk q (job ∷ jobs) = ground (arith, has-reserve pk q jobs)

  -- The conditional update finds a waiting row exactly when it reports one, and leaves none waiting.
  reserve_found :
      (pk : ℕ) (jobs : List (CaptureJob Order))
      → ((reserve numbers pk jobs).0 == 0) ≡ false
      → (waits pk jobs ≡ true) × (any_of (has_pk pk) jobs ≡ true)
  reserve_found pk [] h = cc
  reserve_found pk (job ∷ jobs) h = ground (arith, reserve_found pk jobs)

  reserve_settles :
      (pk : ℕ) (jobs : List (CaptureJob Order)) → waits pk (reserve numbers pk jobs).1 ≡ false
  reserve_settles pk [] = refl
  reserve_settles pk (job ∷ jobs) = ground (arith, reserve_settles pk jobs)

  waits-settle :
      (pk q : ℕ) (status : Status) (jobs : List (CaptureJob Order))
      → is_settled status ≡ true
      → waits q jobs ≡ false
      → waits q (settle pk status jobs) ≡ false
  waits-settle pk q status [] s h = h
  waits-settle pk q status (job ∷ jobs) s h = ground (arith, waits-settle pk q status jobs)

  has-settle :
      (pk q : ℕ) (status : Status) (jobs : List (CaptureJob Order))
      → any_of (has_pk q) (settle pk status jobs) ≡ any_of (has_pk q) jobs
  has-settle pk q status [] = refl
  has-settle pk q status (job ∷ jobs) = ground (arith, has-settle pk q status jobs)

  -- A row that enters has a new key, so it is none that was handed out.
  enter-IsHanded :
      (job : CaptureJob Order) (jobs : List (CaptureJob Order)) (c : ℕ × ℕ)
      → any_of (has_pk job.pk) jobs ≡ false
      → IsHanded jobs c
      → IsHanded (job ∷ jobs) c
  enter-IsHanded job jobs c fresh (w, k) = elim (Bool-cases (job.pk == c.1)) [
    | inl same ↦ cc (ap (λ (q : ℕ). any_of (has_pk q) jobs) ((==_iff job.pk c.1).0 same))
    | inr other ↦ rw other (w, k)
  ]

  pub record IsOrderly (pool : Pool Order) : Type 0 where
    pub handed : All (IsHanded pool.jobs) pool.claims
    pub once : HandedOnce pool.claims

  not_yet_claimed :
      (pk : ℕ) (jobs : List (CaptureJob Order)) (claims : List (ℕ × ℕ))
      → waits pk jobs ≡ true
      → All (IsHanded jobs) claims
      → All (λ c. (c.1 == pk) ≡ false) claims
  not_yet_claimed pk jobs [] w h = tt
  not_yet_claimed pk jobs (c ∷ claims) w (h, hs) = (
    elim (Bool-cases (c.1 == pk)) [
      | inl same ↦ cc (ap (λ (q : ℕ). waits q jobs) ((==_iff c.1 pk).0 same))
      | inr other ↦ other
    ],
    not_yet_claimed pk jobs claims w hs,
  )

  claim-IsOrderly :
      (w pk : ℕ) (pool : Pool Order) → IsOrderly pool → IsOrderly (claim numbers w pk pool)
  unfolding claim
  claim-IsOrderly w pk pool inv = elim (Bool-cases ((reserve numbers pk pool.jobs).0 == 0)) [
    | inl late ↦ rw late (record { handed = inv.handed; once = inv.once })
    | inr first ↦
        let (waiting, known) = reserve_found pk pool.jobs first in
        rw first (record {
          handed = (
            (reserve_settles pk pool.jobs, has-reserve pk pk pool.jobs ∙ known),
            All-imp (IsHanded pool.jobs) (IsHanded (reserve numbers pk pool.jobs).1)
                (λ c (h, k). (waits-reserve pk c.1 pool.jobs h, has-reserve pk c.1 pool.jobs ∙ k))
                pool.claims inv.handed,
          );
          once = (not_yet_claimed pk pool.jobs pool.claims waiting inv.handed, inv.once);
        })
  ]

  Step-IsOrderly :
      {pool after : Pool Order} → Step numbers pool after → IsOrderly pool → IsOrderly after
  Step-IsOrderly {pool} clean inv = record {
    handed =
        All-imp (IsHanded pool.jobs) (IsHanded (drop_deleted numbers pool.jobs))
          (λ c (h, k). (waits-drop_deleted c.1 pool.jobs h, has-drop_deleted c.1 pool.jobs ∙ k))
          pool.claims inv.handed;
    once = inv.once;
  }
  Step-IsOrderly (choose w job e) inv = record { handed = inv.handed; once = inv.once }
  Step-IsOrderly {pool} (reserve_chosen w pk e) inv = claim-IsOrderly w pk pool inv
  Step-IsOrderly {pool} (enter job fresh) inv = record {
    handed =
        All-imp (IsHanded pool.jobs) (IsHanded (job ∷ pool.jobs))
          (λ c. enter-IsHanded job pool.jobs c fresh) pool.claims inv.handed;
    once = inv.once;
  }
  Step-IsOrderly {pool} (settled pk status s) inv = record {
    handed =
        All-imp (IsHanded pool.jobs) (IsHanded (settle pk status pool.jobs))
          (λ c (h, k).
            (waits-settle pk c.1 status pool.jobs s h, has-settle pk c.1 status pool.jobs ∙ k))
          pool.claims inv.handed;
    once = inv.once;
  }

  Reach-IsOrderly :
      {start pool : Pool Order} → IsOrderly start → Reach numbers start pool → IsOrderly pool
  Reach-IsOrderly inv here = inv
  Reach-IsOrderly inv (later r st) = Step-IsOrderly st (Reach-IsOrderly inv r)

  -- From a start at which no job was handed out, however the steps of the workers interleave, no job
  -- is handed to two workers, or twice to one.
  pub Reach-HandedOnce :
      {start pool : Pool Order}
      → start.claims ≡ []
      → Reach numbers start pool
      → HandedOnce pool.claims
  Reach-HandedOnce {start} none_yet r =
      (Reach-IsOrderly (record { handed = rw none_yet tt; once = rw none_yet tt }) r).once
