-- ===== src/Sponsorships/Warnings.antt =====
-- The tasks that warn of the end of a sponsorship or an affiliation, and the one that removes
-- affiliations (perma_web/perma/celery_tasks.py). A date is the number of its day; what is sent is the id
-- of the row and the number of days.
use perma.Prelude.{
  ℕ, ◌+◌, ◌*◌, ◌/◌, ◌<◌, max, Bool, true, false, not, ◌≡◌, inl, inr, refl, sym, Option, none, some,
  List, [], ◌∷◌, ◌++◌, ltb, leb, ◌==◌, if◌then◌else◌, filter_if, arith, All, Bool-cases,
}
use perma.Sponsorships.{Sponsorship, is_active, is_before}

-- `UserOrganizationAffiliation`
pub record Affiliation : Type 0 where
  pub id : ℕ
  pub user_id : ℕ
  pub organization_id : ℕ
  pub expires_at : Option ℕ

unfoldable pub remove_expired_organization_user_affiliations :
    ℕ → List Affiliation → List Affiliation
remove_expired_organization_user_affiliations date =
    filter_if (λ (affiliation : Affiliation). not (is_before date affiliation.expires_at))

abbrev pub day_length : ℕ
day_length = 86400

abbrev pub default_days : List ℕ
default_days = 7 ∷ 15 ∷ 30 ∷ []

-- `if not warning_days`
abbrev pub days_or_default : List ℕ → List ℕ
days_or_default [] = default_days
days_or_default (day ∷ days) = day ∷ days

abbrev pub last_day : List ℕ → ℕ
last_day [] = 0
last_day (day ∷ days) = max day (last_day days)

-- The loop over the days, up to its `break`.
abbrev pub first_warning : ℕ → ℕ → ℕ → List ℕ → List (ℕ × ℕ)
first_warning today date id [] = []
first_warning today date id (day ∷ days) =
    let rest = first_warning today date id days in
    if date == today + day then (id, day) ∷ [] else rest

-- `expires_at__lte` and `expires_at__lt`, with the midnight that starts the last date.
abbrev pub is_in_reach : Bool → ℕ → List ℕ → ℕ → Bool
is_in_reach true today days expires_at = leb expires_at ((today + last_day days) * day_length)
is_in_reach false today days expires_at = ltb expires_at ((today + last_day days) * day_length)

abbrev pub warning : Bool → ℕ → List ℕ → ℕ → Option ℕ → List (ℕ × ℕ)
warning with_last today days id none = []
warning with_last today days id (some expires_at) =
    if is_in_reach with_last today days expires_at
    then first_warning today (expires_at / day_length) id days
    else []

unfoldable pub warn_expiring_sponsored_users : ℕ → List ℕ → List Sponsorship → List (ℕ × ℕ)
warn_expiring_sponsored_users today warning_days [] = []
warn_expiring_sponsored_users today warning_days (sponsorship ∷ sponsorships) =
    (if is_active sponsorship.status
      then warning true today (days_or_default warning_days) sponsorship.id sponsorship.expires_at
      else [])
    ++ warn_expiring_sponsored_users today warning_days sponsorships

unfoldable pub warn_expiring_organization_users : ℕ → List ℕ → List Affiliation → List (ℕ × ℕ)
warn_expiring_organization_users today warning_days [] = []
warn_expiring_organization_users today warning_days (affiliation ∷ affiliations) =
    warning false today (days_or_default warning_days) affiliation.id affiliation.expires_at
    ++ warn_expiring_organization_users today warning_days affiliations

-- The number of days that is told is one before the last.
abbrev pub IsBeforeLast : List ℕ → ℕ × ℕ → Type 0
IsBeforeLast warning_days (id, day) = day < last_day (days_or_default warning_days)

first_warning-before :
    (today expires_at id bound : ℕ) (days : List ℕ)
    → expires_at < (today + bound) * day_length
    → All (λ (told : ℕ × ℕ). told.1 < bound) (first_warning today (expires_at / day_length) id days)
first_warning-before today expires_at id bound [] h = tt
first_warning-before today expires_at id bound (day ∷ days) h =
    elim (Bool-cases (expires_at / day_length == today + day)) [
      | inl due ↦ rw due (ground arith, tt)
      | inr later ↦ rw later (first_warning-before today expires_at id bound days h)
    ]

All-append : (P : ℕ × ℕ → Type 0) (xs ys : List (ℕ × ℕ)) → All P xs → All P ys → All P (xs ++ ys)
All-append P [] ys h k = k
All-append P (x ∷ xs) ys (h, hs) k = (h, All-append P xs ys hs k)

warning-before :
    (today id : ℕ) (days : List ℕ) (expires_at : Option ℕ)
    → All (λ (told : ℕ × ℕ). told.1 < last_day days) (warning false today days id expires_at)
warning-before today id days none = tt
warning-before today id days (some expires_at) =
    elim (Bool-cases (is_in_reach false today days expires_at)) [
      | inl near ↦
          rw near (first_warning-before today expires_at id (last_day days) days (ground arith))
      | inr far ↦ rw far tt
    ]

-- The task `warn_expiring_organization_users` never sends the earliest warning: each that it sends, for
-- whatever affiliations and days, is for fewer days than the largest of the warning days.
pub warn_expiring_organization_users-IsBeforeLast :
    (today : ℕ) (warning_days : List ℕ) (affiliations : List Affiliation)
    → All
        (IsBeforeLast warning_days)
        (warn_expiring_organization_users today warning_days affiliations)
unfolding warn_expiring_organization_users
warn_expiring_organization_users-IsBeforeLast today warning_days [] = tt
warn_expiring_organization_users-IsBeforeLast today warning_days (affiliation ∷ affiliations) =
    All-append (IsBeforeLast warning_days)
      (warning false today (days_or_default warning_days) affiliation.id affiliation.expires_at)
      (warn_expiring_organization_users today warning_days affiliations)
      (warning-before today affiliation.id (days_or_default warning_days) affiliation.expires_at)
      (warn_expiring_organization_users-IsBeforeLast today warning_days affiliations)

first_warning-none :
    (today date id : ℕ) (days : List ℕ)
    → today + last_day days < date
    → first_warning today date id days ≡ []
first_warning-none today date id [] h = refl
first_warning-none today date id (day ∷ days) h = elim (Bool-cases (date == today + day)) [
  | inl due ↦ absurd (ground arith)
  | inr other ↦ rw other (first_warning-none today date id days (ground arith))
]

abbrev pub EndsAtMidnight : Option ℕ → Type 0
EndsAtMidnight none = Unit
EndsAtMidnight (some expires_at) = (expires_at / day_length) * day_length ≡ expires_at

-- What is told of one end, if all dates are looked at.
abbrev pub due_warning : ℕ → List ℕ → ℕ → Option ℕ → List (ℕ × ℕ)
due_warning today days id none = []
due_warning today days id (some expires_at) = first_warning today (expires_at / day_length) id days

warning-midnight :
    (today id : ℕ) (days : List ℕ) (expires_at : Option ℕ)
    → EndsAtMidnight expires_at
    → warning true today days id expires_at ≡ due_warning today days id expires_at
warning-midnight today id days none h = refl
warning-midnight today id days (some expires_at) h =
    elim (Bool-cases (is_in_reach true today days expires_at)) [
      | inl near ↦ rw near refl
      | inr far ↦
          rw far (sym (first_warning-none today (expires_at / day_length) id days (ground arith)))
    ]

-- The warnings due to active sponsorships.
abbrev pub due_warnings : ℕ → List ℕ → List Sponsorship → List (ℕ × ℕ)
due_warnings today days [] = []
due_warnings today days (sponsorship ∷ sponsorships) =
    (if is_active sponsorship.status
      then due_warning today days sponsorship.id sponsorship.expires_at
      else [])
    ++ due_warnings today days sponsorships

-- If every sponsorship ends at a midnight, or never, `warn_expiring_sponsored_users` sends exactly the
-- warnings that are due: one for each active sponsorship whose last day is one of the warning days away,
-- the earliest warning included. Its query for the sponsorships that end soon leaves none of them out.
pub warn_expiring_sponsored_users-eq-due_warnings :
    (today : ℕ) (warning_days : List ℕ) (sponsorships : List Sponsorship)
    → All (λ (s : Sponsorship). EndsAtMidnight s.expires_at) sponsorships
    → warn_expiring_sponsored_users today warning_days sponsorships
      ≡ due_warnings today (days_or_default warning_days) sponsorships
unfolding warn_expiring_sponsored_users
warn_expiring_sponsored_users-eq-due_warnings today warning_days [] h = refl
warn_expiring_sponsored_users-eq-due_warnings today warning_days (sponsorship ∷ sponsorships)
      (h, hs) =
    rw
      (
        warning-midnight today sponsorship.id (days_or_default warning_days) sponsorship.expires_at
            h,
        warn_expiring_sponsored_users-eq-due_warnings today warning_days sponsorships hs,
      )
      refl
