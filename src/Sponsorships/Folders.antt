-- ===== src/Sponsorships/Folders.antt =====
-- The folders of a sponsorship are read-only exactly while it is inactive: what keeps this, and what does
-- not (perma_web/perma/models/registrar.py, perma_web/perma/celery_tasks.py).
use mathlib.Core.Path.{subst}
use perma.Prelude.{
  ℕ, Bool, true, false, not, ◌≡◌, inl, inr, refl, Option, none, some, List, [], ◌∷◌, if◌then◌else◌,
  any_of, arith, All, Bool-cases,
}
use perma.Sponsorships.{
  SponsorshipStatus, active, inactive, Sponsorship, SponsoredFolder, is_inactive, same_status,
  belongs_to, set_read_only, set_all_read_only, with_folder, save, Database, is_sponsorship_of,
  find, replace, Requester, Answer, forbidden, not_found, done, store, change, change_sponsorship,
  toggle_status, change_expiration_date, is_foreign, allow_staff_or_registrar,
}

abbrev pub same_bool : Bool → Bool → Bool
same_bool true b = b
same_bool false b = not b

-- A folder of the sponsorship is read-only exactly if the sponsorship is inactive.
abbrev pub follows : Sponsorship → SponsoredFolder → Bool
follows sponsorship folder =
    if belongs_to sponsorship folder
    then same_bool folder.read_only (is_inactive sponsorship.status)
    else true

abbrev pub Follows : List SponsoredFolder → Sponsorship → Type 0
Follows folders sponsorship = All (λ folder. follows sponsorship folder ≡ true) folders

abbrev pub IsFollowed : Database → Type 0
IsFollowed database = All (Follows database.folders) database.sponsorships

abbrev pub HasFolder : List SponsoredFolder → Sponsorship → Type 0
HasFolder folders sponsorship = any_of (belongs_to sponsorship) folders ≡ true

set_all_read_only-Follows :
    (sponsorship : Sponsorship) (folders : List SponsoredFolder)
    → Follows (set_all_read_only (is_inactive sponsorship.status) sponsorship folders) sponsorship
set_all_read_only-Follows sponsorship [] = tt
set_all_read_only-Follows sponsorship (folder ∷ folders) =
    (ground arith, set_all_read_only-Follows sponsorship folders)

-- Another sponsorship's folders are other folders.
set_read_only-other :
    (read_only : Bool) (sponsorship other : Sponsorship) (folder : SponsoredFolder)
    → is_sponsorship_of sponsorship.user_id sponsorship.registrar_id other ≡ false
    → follows other folder ≡ true
    → follows other (set_read_only read_only sponsorship folder) ≡ true
set_read_only-other read_only sponsorship other folder differs h = ground arith

set_all_read_only-other :
    (read_only : Bool) (sponsorship other : Sponsorship) (folders : List SponsoredFolder)
    → is_sponsorship_of sponsorship.user_id sponsorship.registrar_id other ≡ false
    → Follows folders other
    → Follows (set_all_read_only read_only sponsorship folders) other
set_all_read_only-other read_only sponsorship other [] differs h = tt
set_all_read_only-other read_only sponsorship other (folder ∷ folders) differs (h, hs) = (
  set_read_only-other read_only sponsorship other folder differs h,
  set_all_read_only-other read_only sponsorship other folders differs hs,
)

find-Follows :
    (P : Sponsorship → Type 0) (user_id registrar_id : ℕ) (sponsorships : List Sponsorship)
    (found : Sponsorship)
    → All P sponsorships
    → find user_id registrar_id sponsorships ≡ some found
    → P found × (is_sponsorship_of user_id registrar_id found ≡ true)
find-Follows P user_id registrar_id [] found h e = cc
find-Follows P user_id registrar_id (sponsorship ∷ sponsorships) found (h, hs) e =
    elim (Bool-cases (is_sponsorship_of user_id registrar_id sponsorship)) [
      | inl here ↦
          let e' : some sponsorship ≡ some found = rw here at e in
          let same : sponsorship ≡ found = cc in
          (subst P same h, subst (λ s. is_sponsorship_of user_id registrar_id s ≡ true) same here)
      | inr there ↦ find-Follows P user_id registrar_id sponsorships found hs (rw there at e)
    ]

-- Every row of the table after one is replaced.
replace-Follows :
    (folders folders' : List SponsoredFolder) (changed : Sponsorship)
    (sponsorships : List Sponsorship)
    → Follows folders' changed
    → ((other : Sponsorship)
        → is_sponsorship_of changed.user_id changed.registrar_id other ≡ false
        → Follows folders other
        → Follows folders' other)
    → All (Follows folders) sponsorships
    → All (Follows folders') (replace changed sponsorships)
replace-Follows folders folders' changed [] own others hs = tt
replace-Follows folders folders' changed (sponsorship ∷ sponsorships) own others (h, hs) =
    let rest = replace-Follows folders folders' changed sponsorships own others hs in
    elim (Bool-cases (is_sponsorship_of changed.user_id changed.registrar_id sponsorship)) [
      | inl here ↦ rw here (own, rest)
      | inr there ↦ rw there (others sponsorship there h, rest)
    ]

same_status-eq :
    (a b : Option SponsorshipStatus) → same_status a b ≡ true → is_inactive a ≡ is_inactive b
same_status-eq none none h = refl
same_status-eq none (some b) h = cc
same_status-eq (some active) none h = cc
same_status-eq (some inactive) none h = cc
same_status-eq (some active) (some active) h = refl
same_status-eq (some inactive) (some inactive) h = refl
same_status-eq (some active) (some inactive) h = cc
same_status-eq (some inactive) (some active) h = cc

Follows-same :
    (old changed : Sponsorship) (folders : List SponsoredFolder)
    → changed.user_id ≡ old.user_id
    → changed.registrar_id ≡ old.registrar_id
    → is_inactive old.status ≡ is_inactive changed.status
    → Follows folders old
    → Follows folders changed
Follows-same old changed [] hu hr hs h = tt
Follows-same old changed (folder ∷ folders) hu hr hs (h, rest) =
    (ground arith, Follows-same old changed folders hu hr hs rest)

with_folder-eq :
    (sponsorship : Sponsorship) (folders : List SponsoredFolder)
    → HasFolder folders sponsorship
    → with_folder sponsorship folders ≡ folders
with_folder-eq sponsorship folders has = rw has refl

-- What a save keeps, for the sponsorship that is saved and for the others.
save-Follows :
    (old changed : Sponsorship) (folders : List SponsoredFolder)
    → changed.user_id ≡ old.user_id
    → changed.registrar_id ≡ old.registrar_id
    → HasFolder folders changed
    → Follows folders old
    → Follows (save (some old.status) changed folders) changed
unfolding save
save-Follows old changed folders hu hr has h =
    rw (with_folder-eq changed folders has)
      (elim (Bool-cases (same_status old.status changed.status)) [
        | inl same ↦ rw same (
            Follows-same old changed folders hu hr (same_status-eq old.status changed.status same)
              h)
        | inr differs ↦ rw differs (set_all_read_only-Follows changed folders)
      ])

save-Follows_other :
    (old changed other : Sponsorship) (folders : List SponsoredFolder)
    → HasFolder folders changed
    → is_sponsorship_of changed.user_id changed.registrar_id other ≡ false
    → Follows folders other
    → Follows (save (some old.status) changed folders) other
unfolding save
save-Follows_other old changed other folders has differs h =
    rw (with_folder-eq changed folders has)
      (elim (Bool-cases (same_status old.status changed.status)) [
        | inl same ↦ rw same h
        | inr changes ↦
            rw changes
              (set_all_read_only-other (is_inactive changed.status) changed other folders differs h)
      ])

store-IsFollowed :
    (old changed : Sponsorship) (database : Database)
    → changed.user_id ≡ old.user_id
    → changed.registrar_id ≡ old.registrar_id
    → HasFolder database.folders changed
    → Follows database.folders old
    → IsFollowed database
    → IsFollowed (store old changed database)
store-IsFollowed old changed database hu hr has own h =
    replace-Follows database.folders (save (some old.status) changed database.folders) changed
      database.sponsorships (save-Follows old changed database.folders hu hr has own)
      (λ other. save-Follows_other old changed other database.folders has) h

-- The database after a request, which leaves it alone unless it is done.
abbrev pub after : Database → Answer → Database
after database forbidden = database
after database not_found = database
after database (done changed) = changed

HasFolder-same :
    (old changed : Sponsorship) (folders : List SponsoredFolder)
    → changed.user_id ≡ old.user_id
    → changed.registrar_id ≡ old.registrar_id
    → HasFolder folders old
    → HasFolder folders changed
HasFolder-same old changed [] hu hr h = cc
HasFolder-same old changed (folder ∷ folders) hu hr h = elim (Bool-cases (belongs_to old folder)) [
  | inl here ↦ ground arith
  | inr there ↦ let rest = HasFolder-same old changed folders hu hr (rw there at h) in ground arith
]

change-IsFollowed :
    (f : Sponsorship → Sponsorship) (requester : Requester) (registrar_id : ℕ)
    (found : Option Sponsorship) (database : Database)
    → ((s : Sponsorship) → ((f s).user_id ≡ s.user_id) × ((f s).registrar_id ≡ s.registrar_id))
    → ((s : Sponsorship)
        → found ≡ some s
        → HasFolder database.folders s × Follows database.folders s)
    → IsFollowed database
    → IsFollowed (after database (change f requester registrar_id found database))
change-IsFollowed f requester registrar_id none database keys facts h = h
change-IsFollowed f requester registrar_id (some old) database keys facts h =
    elim (Bool-cases (is_foreign requester registrar_id)) [
      | inl foreign ↦ rw foreign h
      | inr own ↦ rw own (
          store-IsFollowed old (f old) database (keys old).0 (keys old).1
            (HasFolder-same old (f old) database.folders (keys old).0 (keys old).1
              (facts old refl).0)
            (facts old refl).1 h)
    ]

change_sponsorship-IsFollowed :
    (f : Sponsorship → Sponsorship) (requester : Requester) (user_id registrar_id : ℕ)
    (database : Database)
    → ((s : Sponsorship) → ((f s).user_id ≡ s.user_id) × ((f s).registrar_id ≡ s.registrar_id))
    → All (HasFolder database.folders) database.sponsorships
    → IsFollowed database
    → IsFollowed (after database (change_sponsorship f requester user_id registrar_id database))
change_sponsorship-IsFollowed f requester user_id registrar_id database keys has h =
    let rows = database.sponsorships in
    elim (Bool-cases (allow_staff_or_registrar requester)) [
      | inl allowed ↦ rw allowed (
          change-IsFollowed f requester registrar_id (find user_id registrar_id rows) database keys
            (λ s e. (
              (find-Follows (HasFolder database.folders) user_id registrar_id rows s has e).0,
              (find-Follows (Follows database.folders) user_id registrar_id rows s h e).0,
            ))
            h)
      | inr refused ↦ rw refused h
    ]

-- If in the database a sponsored folder is read-only exactly while its sponsorship is inactive, and every
-- sponsorship has a folder, then this still holds after any request that switches a sponsorship on
-- or off, refused ones included.
pub toggle_status-IsFollowed :
    (now : ℕ) (status : SponsorshipStatus) (requester : Requester) (user_id registrar_id : ℕ)
    (database : Database)
    → All (HasFolder database.folders) database.sponsorships
    → IsFollowed database
    → IsFollowed (after database (toggle_status now status requester user_id registrar_id database))
unfolding toggle_status
toggle_status-IsFollowed now status requester user_id registrar_id database =
    change_sponsorship-IsFollowed (λ s. record s { status = some status; status_changed = now })
      requester user_id registrar_id database (λ s. (refl, refl))

-- A request that changes the date at which a sponsorship expires keeps it too.
pub change_expiration_date-IsFollowed :
    (now : ℕ) (expires_at : Option ℕ) (requester : Requester) (user_id registrar_id : ℕ)
    (database : Database)
    → All (HasFolder database.folders) database.sponsorships
    → IsFollowed database
    → IsFollowed (
        after database
          (change_expiration_date now expires_at requester user_id registrar_id database))
unfolding change_expiration_date
change_expiration_date-IsFollowed now expires_at requester user_id registrar_id database =
    change_sponsorship-IsFollowed (λ s. record s { expires_at = expires_at; status_changed = now })
      requester user_id registrar_id database (λ s. (refl, refl))
