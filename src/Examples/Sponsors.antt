-- ===== src/Examples/Sponsors.antt =====
-- Sponsorships and affiliations at concrete inputs.
use perma.Prelude.{refl, true, false, ◌≡◌, none, some, [], ◌∷◌, All, any_of}
use perma.Sponsorships.{
  active, inactive, Sponsorship, SponsoredFolder, Database, Requester, toggle_status,
  deactivate_expired_sponsored_users,
}
use perma.Sponsorships.Folders.{IsFollowed, after, toggle_status-IsFollowed}
use perma.Sponsorships.Expiry.{IsOver, ends_writable, deactivate_expired_sponsored_users-IsFollowed}
use perma.Sponsorships.Warnings.{
  Affiliation, warn_expiring_organization_users, warn_expiring_sponsored_users, IsBeforeLast,
  warn_expiring_organization_users-IsBeforeLast,
}

abbrev by_seven : Sponsorship
by_seven = record {
  id = 1;
  user_id = 3;
  registrar_id = 7;
  status = some active;
  status_changed = 0;
  expires_at = some 2592000;
}

abbrev by_eight : Sponsorship
by_eight = record by_seven { id = 2; registrar_id = 8; status = some inactive; expires_at = none }

abbrev folder_of_seven : SponsoredFolder
folder_of_seven = record { owned_by = some 3; sponsored_by = some 7; read_only = false }

abbrev folder_of_eight : SponsoredFolder
folder_of_eight = record { owned_by = some 3; sponsored_by = some 8; read_only = true }

abbrev two_sponsors : Database
two_sponsors = record {
  sponsorships = by_seven ∷ by_eight ∷ [];
  folders = folder_of_seven ∷ folder_of_eight ∷ [];
}

abbrev registrar_user : Requester
registrar_user = record { is_staff = false; registrar_id = some 7 }

abbrev affiliation : Affiliation
affiliation = record { id = 5; user_id = 3; organization_id = 4; expires_at = some 2592000 }

toggle_status-IsFollowed_example :
    IsFollowed (after two_sponsors (toggle_status 9 inactive registrar_user 3 7 two_sponsors))
toggle_status-IsFollowed_example =
    toggle_status-IsFollowed 9 inactive registrar_user 3 7 two_sponsors (refl, (refl, tt))
      ((refl, (refl, tt)), ((refl, (refl, tt)), tt))

deactivate_expired_sponsored_users-IsFollowed_example :
    let database' = deactivate_expired_sponsored_users 9 2678400 two_sponsors in
    All (IsOver 2678400) database'.sponsorships
    × (database'.folders ≡ two_sponsors.folders)
    × (any_of (ends_writable database'.folders) database'.sponsorships ≡ true)
    × (¬ IsFollowed database')
deactivate_expired_sponsored_users-IsFollowed_example =
    deactivate_expired_sponsored_users-IsFollowed 9 2678400 two_sponsors refl
      ((refl, (refl, tt)), ((refl, (refl, tt)), tt))

warn_expiring_organization_users-IsBeforeLast_example :
    All (IsBeforeLast []) (warn_expiring_organization_users 0 [] (affiliation ∷ []))
warn_expiring_organization_users-IsBeforeLast_example =
    warn_expiring_organization_users-IsBeforeLast 0 [] (affiliation ∷ [])

-- Thirty days before it ends, the sponsorship is warned of and the affiliation is not.
thirty_days : warn_expiring_sponsored_users 0 [] (by_seven ∷ []) ≡ (1, 30) ∷ []
unfolding warn_expiring_sponsored_users
thirty_days = refl

no_thirty_days : warn_expiring_organization_users 0 [] (affiliation ∷ []) ≡ []
unfolding warn_expiring_organization_users
no_thirty_days = refl
