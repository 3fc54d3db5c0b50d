-- ===== src/Sponsorships.antt =====
-- Sponsorships and affiliations that expire: `Sponsorship` of perma_web/perma/models/registrar.py, the
-- tasks at the end of perma_web/perma/celery_tasks.py, and the views that change a sponsorship
-- (perma_web/perma/views/user_management/views.py). Times are seconds, and dates are midnights.
pub mod Folders
pub mod Expiry
pub mod Warnings
use perma.Prelude.{
  ℕ, ◌+◌, ◌*◌, Bool, true, false, not, ◌&&◌, ◌||◌, Option, none, some, List, [], ◌∷◌, ltb, leb,
  ◌==◌, if◌then◌else◌, any_of, filter_if, same_key,
}

pub data SponsorshipStatus : Type 0 where
  active inactive : SponsorshipStatus

pub record Sponsorship : Type 0 where
  pub id : ℕ
  pub user_id : ℕ
  pub registrar_id : ℕ
  -- a nullable column
  pub status : Option SponsorshipStatus
  pub status_changed : ℕ
  pub expires_at : Option ℕ

pub record SponsoredFolder : Type 0 where
  pub owned_by : Option ℕ
  pub sponsored_by : Option ℕ
  pub read_only : Bool

abbrev pub is_active : Option SponsorshipStatus → Bool
is_active (some active) = true
is_active _ = false

abbrev pub is_inactive : Option SponsorshipStatus → Bool
is_inactive (some inactive) = true
is_inactive _ = false

abbrev pub same_status : Option SponsorshipStatus → Option SponsorshipStatus → Bool
same_status none none = true
same_status (some active) (some active) = true
same_status (some inactive) (some inactive) = true
same_status _ _ = false

-- `Sponsorship.folders`, as a test.
abbrev pub belongs_to : Sponsorship → SponsoredFolder → Bool
belongs_to sponsorship folder =
    same_key folder.owned_by (some sponsorship.user_id)
    && same_key folder.sponsored_by (some sponsorship.registrar_id)

abbrev pub set_read_only : Bool → Sponsorship → SponsoredFolder → SponsoredFolder
set_read_only read_only sponsorship folder =
    if belongs_to sponsorship folder then record folder { read_only = read_only } else folder

abbrev pub set_all_read_only : Bool → Sponsorship → List SponsoredFolder → List SponsoredFolder
set_all_read_only read_only sponsorship [] = []
set_all_read_only read_only sponsorship (folder ∷ folders) =
    set_read_only read_only sponsorship folder ∷ set_all_read_only read_only sponsorship folders

-- The folder that `create_sponsored_folder` makes below the user's sponsored root folder.
abbrev pub create_sponsored_folder : Sponsorship → SponsoredFolder
create_sponsored_folder sponsorship = record {
  owned_by = some sponsorship.user_id;
  sponsored_by = some sponsorship.registrar_id;
  read_only = false;
}

abbrev pub with_folder : Sponsorship → List SponsoredFolder → List SponsoredFolder
with_folder sponsorship folders =
    if any_of (belongs_to sponsorship) folders
    then folders
    else create_sponsored_folder sponsorship ∷ folders

-- `Sponsorship.save`, on the folders: `saved` is the status of the row in the database, which a new
-- sponsorship has not.
unfoldable pub save :
    Option (Option SponsorshipStatus) → Sponsorship → List SponsoredFolder → List SponsoredFolder
save none sponsorship folders =
    set_all_read_only (is_inactive sponsorship.status) sponsorship (with_folder sponsorship folders)
save (some saved) sponsorship folders =
    if same_status saved sponsorship.status
    then with_folder sponsorship folders
    else set_all_read_only (is_inactive sponsorship.status) sponsorship
        (with_folder sponsorship folders)

-- The rows of the two tables.
pub record Database : Type 0 where
  pub sponsorships : List Sponsorship
  pub folders : List SponsoredFolder

abbrev pub is_sponsorship_of : ℕ → ℕ → Sponsorship → Bool
is_sponsorship_of user_id registrar_id sponsorship =
    sponsorship.user_id == user_id && sponsorship.registrar_id == registrar_id

abbrev pub find : ℕ → ℕ → List Sponsorship → Option Sponsorship
find user_id registrar_id [] = none
find user_id registrar_id (sponsorship ∷ sponsorships) =
    let rest = find user_id registrar_id sponsorships in
    if is_sponsorship_of user_id registrar_id sponsorship then some sponsorship else rest

abbrev pub replace : Sponsorship → List Sponsorship → List Sponsorship
replace changed [] = []
replace changed (sponsorship ∷ sponsorships) =
    (if is_sponsorship_of changed.user_id changed.registrar_id sponsorship
      then changed
      else sponsorship)
    ∷ replace changed sponsorships

-- The user of a request.
pub record Requester : Type 0 where
  pub is_staff : Bool
  pub registrar_id : Option ℕ

-- Forbidden, not found, or done.
pub data Answer : Type 0 where
  forbidden not_found : Answer
  done : Database → Answer

-- `request.user.registrar not in target_user.sponsoring_registrars.all() or …`; the sponsorship that was
-- found makes its registrar one of the sponsoring registrars.
abbrev pub is_foreign : Requester → ℕ → Bool
is_foreign requester registrar_id = elim (requester.registrar_id) [
  | none ↦ false
  | some own ↦ not (own == registrar_id)
]

abbrev pub store : Sponsorship → Sponsorship → Database → Database
store old changed database = record {
  sponsorships = replace changed database.sponsorships;
  folders = save (some old.status) changed database.folders;
}

abbrev pub allow_staff_or_registrar : Requester → Bool
allow_staff_or_registrar requester =
    requester.is_staff || not (same_key requester.registrar_id none)

-- A POST that changes one sponsorship.
abbrev pub change :
    (Sponsorship → Sponsorship) → Requester → ℕ → Option Sponsorship → Database → Answer
change f requester registrar_id none database = not_found
change f requester registrar_id (some sponsorship) database =
    if is_foreign requester registrar_id
    then forbidden
    else done (store sponsorship (f sponsorship) database)

abbrev pub change_sponsorship : (Sponsorship → Sponsorship) → Requester → ℕ → ℕ → Database → Answer
change_sponsorship f requester user_id registrar_id database =
    if allow_staff_or_registrar requester
    then change f requester registrar_id (find user_id registrar_id database.sponsorships) database
    else forbidden

-- `status_changed` is an `auto_now` column.
unfoldable pub toggle_status : ℕ → SponsorshipStatus → Requester → ℕ → ℕ → Database → Answer
toggle_status now status =
    change_sponsorship
      (λ sponsorship. record sponsorship { status = some status; status_changed = now })

unfoldable pub change_expiration_date : ℕ → Option ℕ → Requester → ℕ → ℕ → Database → Answer
change_expiration_date now expires_at =
    change_sponsorship
      (λ sponsorship. record sponsorship { expires_at = expires_at; status_changed = now })

-- `expires_at__lt`, for a nullable column.
abbrev pub is_before : ℕ → Option ℕ → Bool
is_before date none = false
is_before date (some expires_at) = ltb expires_at date

abbrev pub has_expired : ℕ → Sponsorship → Bool
has_expired date sponsorship = is_active sponsorship.status && is_before date sponsorship.expires_at

abbrev pub deactivate : ℕ → ℕ → Sponsorship → Sponsorship
deactivate now date sponsorship =
    if has_expired date sponsorship
    then record sponsorship { status = some inactive; status_changed = now }
    else sponsorship

abbrev pub deactivate_all : ℕ → ℕ → List Sponsorship → List Sponsorship
deactivate_all now date [] = []
deactivate_all now date (sponsorship ∷ sponsorships) =
    deactivate now date sponsorship ∷ deactivate_all now date sponsorships

-- The update of a query writes the rows and calls no `save`.
unfoldable pub deactivate_expired_sponsored_users : ℕ → ℕ → Database → Database
deactivate_expired_sponsored_users now date database = record database {
  sponsorships = deactivate_all now date database.sponsorships;
}
