-- ===== src/Sponsorships/Expiry.antt =====
-- The tasks that end sponsorships and affiliations (perma_web/perma/celery_tasks.py).
use perma.Prelude.{
  ℕ, Bool, true, false, not, ◌&&◌, ◌≡◌, inl, inr, refl, ap, some, List, [], ◌∷◌, any_of, arith, All,
  Bool-cases,
}
use perma.Sponsorships.{
  inactive, Sponsorship, SponsoredFolder, is_active, belongs_to, is_inactive, Database, has_expired,
  deactivate_all, deactivate_expired_sponsored_users,
}
use perma.Sponsorships.Folders.{Follows, IsFollowed}

-- A sponsorship with another status and time of change, and nothing else changed.
abbrev pub ended : ℕ → Sponsorship → Sponsorship
ended now sponsorship = record sponsorship { status = some inactive; status_changed = now }

-- An expired sponsorship with a folder that was writable.
ended-Follows :
    (now : ℕ) (sponsorship : Sponsorship) (folders : List SponsoredFolder)
    → is_active sponsorship.status ≡ true
    → any_of (belongs_to sponsorship) folders ≡ true
    → Follows folders sponsorship
    → ¬ Follows folders (ended now sponsorship)
ended-Follows now sponsorship [] a has h h' = cc
ended-Follows now sponsorship (folder ∷ folders) a has (h, hs) (h', hs') =
    elim (Bool-cases (belongs_to sponsorship folder)) [
      | inl own ↦ ground arith
      | inr other ↦ ended-Follows now sponsorship folders a (rw other at has) hs hs'
    ]

-- An expired sponsorship that has a folder.
abbrev pub leaves_folder : ℕ → List SponsoredFolder → Sponsorship → Bool
leaves_folder date folders sponsorship =
    has_expired date sponsorship && any_of (belongs_to sponsorship) folders

deactivate_all-Follows :
    (now date : ℕ) (folders : List SponsoredFolder) (sponsorships : List Sponsorship)
    → any_of (leaves_folder date folders) sponsorships ≡ true
    → All (Follows folders) sponsorships
    → ¬ All (Follows folders) (deactivate_all now date sponsorships)
deactivate_all-Follows now date folders [] some_left h h' = cc
deactivate_all-Follows now date folders (sponsorship ∷ sponsorships) some_left (h, hs) (h', hs') =
    elim (Bool-cases (leaves_folder date folders sponsorship)) [
      | inl left ↦
          let expired : has_expired date sponsorship ≡ true = ground arith in
          let is_on : is_active sponsorship.status ≡ true = ground arith in
          let has : any_of (belongs_to sponsorship) folders ≡ true = ground arith in
          ended-Follows now sponsorship folders is_on has h (rw expired at h')
      | inr stays ↦
          deactivate_all-Follows now date folders sponsorships (rw stays at some_left) hs hs'
    ]

abbrev pub IsOver : ℕ → Sponsorship → Type 0
IsOver date sponsorship = has_expired date sponsorship ≡ false

deactivate_all-IsOver :
    (now date : ℕ) (sponsorships : List Sponsorship)
    → All (IsOver date) (deactivate_all now date sponsorships)
deactivate_all-IsOver now date [] = tt
deactivate_all-IsOver now date (sponsorship ∷ sponsorships) =
    elim (Bool-cases (has_expired date sponsorship)) [
      | inl expired ↦ rw expired (refl, deactivate_all-IsOver now date sponsorships)
      | inr goes_on ↦ rw goes_on (goes_on, deactivate_all-IsOver now date sponsorships)
    ]

-- An inactive sponsorship with a folder that is writable.
abbrev pub ends_writable : List SponsoredFolder → Sponsorship → Bool
ends_writable folders sponsorship =
    is_inactive sponsorship.status
    && any_of (λ folder. belongs_to sponsorship folder && not folder.read_only) folders

-- An active sponsorship's folders are writable.
has_writable :
    (sponsorship : Sponsorship) (folders : List SponsoredFolder)
    → is_active sponsorship.status ≡ true
    → any_of (belongs_to sponsorship) folders ≡ true
    → Follows folders sponsorship
    → any_of (λ folder. belongs_to sponsorship folder && not folder.read_only) folders ≡ true
has_writable sponsorship [] a has h = cc
has_writable sponsorship (folder ∷ folders) a has (h, hs) =
    elim (Bool-cases (belongs_to sponsorship folder)) [
      | inl own ↦ ground arith
      | inr other ↦ rw other (has_writable sponsorship folders a (rw other at has) hs)
    ]

deactivate_all-ends_writable :
    (now date : ℕ) (folders : List SponsoredFolder) (sponsorships : List Sponsorship)
    → any_of (leaves_folder date folders) sponsorships ≡ true
    → All (Follows folders) sponsorships
    → any_of (ends_writable folders) (deactivate_all now date sponsorships) ≡ true
deactivate_all-ends_writable now date folders [] left h = cc
deactivate_all-ends_writable now date folders (sponsorship ∷ sponsorships) left (h, hs) =
    elim (Bool-cases (leaves_folder date folders sponsorship)) [
      | inl leaves ↦
          let expired : has_expired date sponsorship ≡ true = ground arith in
          let is_on : is_active sponsorship.status ≡ true = ground arith in
          let has : any_of (belongs_to sponsorship) folders ≡ true = ground arith in
          rw expired (rw (has_writable sponsorship folders is_on has h) refl)
      | inr stays ↦
          let rest =
            deactivate_all-ends_writable now date folders sponsorships (rw stays at left) hs in
          ground arith
    ]

-- Where the folders are read-only exactly while their sponsorships are inactive, the nightly
-- `deactivate_expired_sponsored_users` ends this as soon as an active sponsorship that has a folder has
-- expired: afterwards no sponsorship that has expired is active, no folder has changed, and an inactive
-- sponsorship has a folder that is writable.
pub deactivate_expired_sponsored_users-IsFollowed :
    (now date : ℕ) (database : Database)
    → any_of (leaves_folder date database.folders) database.sponsorships ≡ true
    → IsFollowed database
    → let database' = deactivate_expired_sponsored_users now date database in
      All (IsOver date) database'.sponsorships
      × (database'.folders ≡ database.folders)
      × (any_of (ends_writable database'.folders) database'.sponsorships ≡ true)
      × (¬ IsFollowed database')
unfolding deactivate_expired_sponsored_users
deactivate_expired_sponsored_users-IsFollowed now date database left h = (
  deactivate_all-IsOver now date database.sponsorships,
  refl,
  deactivate_all-ends_writable now date database.folders database.sponsorships left h,
  deactivate_all-Follows now date database.folders database.sponsorships left h,
)

deactivate_all-eq :
    (now date : ℕ) (sponsorships : List Sponsorship)
    → All (IsOver date) sponsorships
    → deactivate_all now date sponsorships ≡ sponsorships
deactivate_all-eq now date [] h = refl
deactivate_all-eq now date (sponsorship ∷ sponsorships) (h, hs) =
    rw h (ap (λ rest. sponsorship ∷ rest) (deactivate_all-eq now date sponsorships hs))

-- After `deactivate_expired_sponsored_users` no active sponsorship expires before the date, and a
-- second run with that date, at any time, changes nothing.
pub deactivate_expired_sponsored_users_outcome :
    (now later date : ℕ) (database : Database)
    → let database' = deactivate_expired_sponsored_users now date database in
      All (IsOver date) database'.sponsorships
      × (deactivate_expired_sponsored_users later date database' ≡ database')
unfolding deactivate_expired_sponsored_users
deactivate_expired_sponsored_users_outcome now later date database =
    let over = deactivate_all-IsOver now date database.sponsorships in
    (
      over,
      ap (λ rows. record database { sponsorships = rows })
          (deactivate_all-eq later date (deactivate_all now date database.sponsorships) over),
    )
