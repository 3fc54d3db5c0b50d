-- ===== src/CaptureQueue/Fair/Sorted.antt =====
-- The laws of the order numbers, and the sorted queue.
use mathlib.Core.List.{reverse-append}
use perma.Prelude.{
  ◌≡◌, ◌⊎◌, inl, inr, Bool, true, false, List, [], ◌∷◌, ◌++◌, reverse, ◌==◌, All, Bool-cases, ℕ,
}
use perma.CaptureQueue.{OrderNumbers, CaptureJob, insert_descending, descending, take_others}

-- What floats promise: `lt` is a strict order; x + 1 is above x; and where enough precision is left
-- between two orders (`apart`), their midpoint lies strictly between. Nothing is below zero.
pub record OrderLaws {Order : Type 0} (numbers : OrderNumbers Order) : Type 0 where
  pub apart : Order → Order → Bool
  pub lt_trans :
      (a b c : Order) → numbers.lt a b ≡ true → numbers.lt b c ≡ true → numbers.lt a c ≡ true
  pub lt_irrefl : (a : Order) → numbers.lt a a ≡ false
  pub lt_split :
      (a b c : Order) → numbers.lt a b ≡ true → (numbers.lt a c ≡ true) ⊎ (numbers.lt c b ≡ true)
  pub lt-next : (a : Order) → numbers.lt a (numbers.next a) ≡ true
  pub lt-between :
      (a b : Order)
      → numbers.lt a b ≡ true
      → apart a b ≡ true
      → numbers.lt a (numbers.between a b) ≡ true
  pub between-lt :
      (a b : Order)
      → numbers.lt a b ≡ true
      → apart a b ≡ true
      → numbers.lt (numbers.between a b) b ≡ true
  pub zero_least : (a b : Order) → numbers.lt a b ≡ true → numbers.is_zero b ≡ false

module _ {Order : Type 0} {numbers : OrderNumbers Order} (laws : OrderLaws numbers) where
  open numbers use {lt}
  open laws use {apart}

  -- `a` stands below `b`, and there is room between them.
  abbrev pub Below : CaptureJob Order → CaptureJob Order → Type 0
  Below a b = (lt a.order b.order ≡ true) × (apart a.order b.order ≡ true)

  abbrev pub IsSpaced : List (CaptureJob Order) → Type 0
  IsSpaced [] = Unit
  IsSpaced (job ∷ jobs) = All (λ other. Below job other ⊎ Below other job) jobs × IsSpaced jobs

  abbrev pub IsDescending : List (CaptureJob Order) → Type 0
  IsDescending [] = Unit
  IsDescending (job ∷ jobs) = All (λ other. Below other job) jobs × IsDescending jobs

  abbrev pub IsAscending : List (CaptureJob Order) → Type 0
  IsAscending [] = Unit
  IsAscending (job ∷ jobs) = All (λ other. Below job other) jobs × IsAscending jobs

module _ {Order : Type 0} (numbers : OrderNumbers Order) (P : CaptureJob Order → Type 0) where
  pub All-insert_descending :
      (job : CaptureJob Order) (jobs : List (CaptureJob Order))
      → P job
      → All P jobs
      → All P (insert_descending numbers job jobs)
  All-insert_descending job [] p h = (p, tt)
  All-insert_descending job (head ∷ jobs) p (h, hs) =
      elim (Bool-cases (numbers.lt job.order head.order)) [
        | inl lower ↦ rw lower (h, All-insert_descending job jobs p hs)
        | inr higher ↦ rw higher (p, (h, hs))
      ]

  pub All-descending :
      (jobs : List (CaptureJob Order)) → All P jobs → All P (descending numbers jobs)
  All-descending [] h = tt
  All-descending (job ∷ jobs) (h, hs) =
      All-insert_descending job (descending numbers jobs) h (All-descending jobs hs)

  pub All-of_insert_descending :
      (job : CaptureJob Order) (jobs : List (CaptureJob Order))
      → All P (insert_descending numbers job jobs)
      → P job × All P jobs
  All-of_insert_descending job [] h = h
  All-of_insert_descending job (head ∷ jobs) h =
      elim (Bool-cases (numbers.lt job.order head.order)) [
        | inl lower ↦
            let k : P head × All P (insert_descending numbers job jobs) = rw lower at h in
            let (p, hs) = All-of_insert_descending job jobs k.1 in (p, (k.0, hs))
        | inr higher ↦ rw higher at h
      ]

  pub All-of_descending :
      (jobs : List (CaptureJob Order)) → All P (descending numbers jobs) → All P jobs
  All-of_descending [] h = tt
  All-of_descending (job ∷ jobs) h =
      let (p, hs) = All-of_insert_descending job (descending numbers jobs) h in
      (p, All-of_descending jobs hs)

module _ {Order : Type 0} {numbers : OrderNumbers Order} (laws : OrderLaws numbers) where
  open numbers use {lt}

  asymmetric : (a b : Order) → lt a b ≡ true → lt b a ≡ true → ⊥
  asymmetric a b h k = cc (laws.lt_trans a b a h k, laws.lt_irrefl a)

  Below-of_lt :
      (a b : CaptureJob Order)
      → Below laws a b ⊎ Below laws b a
      → lt a.order b.order ≡ true
      → Below laws a b
  Below-of_lt a b (inl h) e = h
  Below-of_lt a b (inr h) e = absurd (asymmetric a.order b.order e h.0)

  Below-of_not_lt :
      (a b : CaptureJob Order)
      → Below laws a b ⊎ Below laws b a
      → lt a.order b.order ≡ false
      → Below laws b a
  Below-of_not_lt a b (inl h) e = cc
  Below-of_not_lt a b (inr h) e = h

  All-Below_higher :
      (job head : CaptureJob Order) (jobs : List (CaptureJob Order))
      → Below laws head job
      → All (λ other. Below laws job other ⊎ Below laws other job) jobs
      → All (λ other. Below laws other head) jobs
      → All (λ other. Below laws other job) jobs
  All-Below_higher job head [] b s h = tt
  All-Below_higher job head (other ∷ jobs) b (s, ss) (h, hs) = (
    Below-of_lt other job (swap s) (laws.lt_trans other.order head.order job.order h.0 b.0),
    All-Below_higher job head jobs b ss hs,
  )
    where
      swap :
          Below laws job other ⊎ Below laws other job → Below laws other job ⊎ Below laws job other
      swap (inl x) = inr x
      swap (inr x) = inl x

  insert_descending-IsDescending :
      (job : CaptureJob Order) (jobs : List (CaptureJob Order))
      → All (λ other. Below laws job other ⊎ Below laws other job) jobs
      → IsDescending laws jobs
      → IsDescending laws (insert_descending numbers job jobs)
  insert_descending-IsDescending job [] s h = (tt, tt)
  insert_descending-IsDescending job (head ∷ jobs) (s, ss) (h, hs) =
      elim (Bool-cases (lt job.order head.order)) [
        | inl lower ↦ rw lower (
          All-insert_descending numbers (λ other. Below laws other head) job jobs
              (Below-of_lt job head s lower) h,
          insert_descending-IsDescending job jobs ss hs,
        )
        | inr higher ↦ rw higher (
            let b = Below-of_not_lt job head s higher in
            ((b, All-Below_higher job head jobs b ss h), (h, hs)))
      ]

  pub descending-IsDescending :
      (jobs : List (CaptureJob Order))
      → IsSpaced laws jobs
      → IsDescending laws (descending numbers jobs)
  descending-IsDescending [] h = tt
  descending-IsDescending (job ∷ jobs) (s, ss) =
      insert_descending-IsDescending job (descending numbers jobs)
        (All-descending numbers (λ other. Below laws job other ⊎ Below laws other job) jobs s)
        (descending-IsDescending jobs ss)

  -- What comes after the user's last job is a part of the queue.
  pub All-take_others :
      (P : CaptureJob Order → Type 0) (user : ℕ) (jobs : List (CaptureJob Order))
      → All P jobs
      → All P (take_others numbers user jobs)
  All-take_others P user [] h = tt
  All-take_others P user (job ∷ jobs) (h, hs) = elim (Bool-cases (job.created_by_id == user)) [
    | inl own ↦ rw own tt
    | inr other ↦ rw other (h, All-take_others P user jobs hs)
  ]

  pub take_others-IsDescending :
      (user : ℕ) (jobs : List (CaptureJob Order))
      → IsDescending laws jobs
      → IsDescending laws (take_others numbers user jobs)
  take_others-IsDescending user [] h = tt
  take_others-IsDescending user (job ∷ jobs) (h, hs) =
      elim (Bool-cases (job.created_by_id == user)) [
        | inl own ↦ rw own tt
        | inr other ↦ rw other (
          All-take_others (λ o. Below laws o job) user jobs h,
          take_others-IsDescending user jobs hs,
        )
      ]

  append-IsAscending :
      (jobs : List (CaptureJob Order)) (job : CaptureJob Order)
      → IsAscending laws jobs
      → All (λ other. Below laws other job) jobs
      → IsAscending laws (jobs ++ (job ∷ []))
  append-IsAscending [] job h b = (tt, tt)
  append-IsAscending (first ∷ jobs) job (h, hs) (b, bs) =
      (All-append-one (λ o. Below laws first o) jobs job h b, append-IsAscending jobs job hs bs)
    where
      All-append-one :
          (P : CaptureJob Order → Type 0) (xs : List (CaptureJob Order)) (x : CaptureJob Order)
          → All P xs
          → P x
          → All P (xs ++ (x ∷ []))
      All-append-one P [] x h p = (p, tt)
      All-append-one P (y ∷ xs) x (h, hs) p = (h, All-append-one P xs x hs p)

  pub reverse_cons :
      (job : CaptureJob Order) (jobs : List (CaptureJob Order))
      → reverse (job ∷ jobs) ≡ reverse jobs ++ (job ∷ [])
  reverse_cons job jobs = reverse-append (job ∷ []) jobs

  pub All-reverse :
      (P : CaptureJob Order → Type 0) (jobs : List (CaptureJob Order))
      → All P jobs
      → All P (reverse jobs)
  All-reverse P [] h = tt
  All-reverse P (job ∷ jobs) (h, hs) =
      rw (reverse_cons job jobs) (All-snoc (reverse jobs) (All-reverse P jobs hs))
    where
      All-snoc : (xs : List (CaptureJob Order)) → All P xs → All P (xs ++ (job ∷ []))
      All-snoc [] t = (h, tt)
      All-snoc (x ∷ xs) (t, ts) = (t, All-snoc xs ts)

  pub reverse-IsAscending :
      (jobs : List (CaptureJob Order)) → IsDescending laws jobs → IsAscending laws (reverse jobs)
  reverse-IsAscending [] h = tt
  reverse-IsAscending (job ∷ jobs) (h, hs) = rw (reverse_cons job jobs) (
      append-IsAscending (reverse jobs) job (reverse-IsAscending jobs hs)
        (All-reverse (λ o. Below laws o job) jobs h))
