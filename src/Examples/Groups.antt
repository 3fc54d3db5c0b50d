-- ===== src/Examples/Groups.antt =====
-- Users go from group to group.
use perma.Prelude.{
  ℕ, Bool, true, false, ◌||◌, ◌≡◌, refl, none, some, [], ◌∷◌, ◌==◌, if◌then◌else◌, any_of,
}
use perma.Access.{Organizations, User, is_registrar_user, is_organization_user}
use perma.UserManagement.{
  Account, in_foreign_organizations, is_admin, refused, saved, Form, new_account,
  add_user_to_organization, add_user_to_registrar, approve_pending_registrar, is_foreign,
}
use perma.UserManagement.Groups.{
  to_organization, to_registrar, to_admin, handle_all, in_one_group, after, IsInOneGroup,
  handle_all-IsInOneGroup,
}
use perma.UserManagement.Recruits.{add_user_to_registrar-recruits}

-- Organization 1 is of registrar 7, organization 2 of registrar 8, organization 3 is deleted.
abbrev organizations : Organizations
organizations id =
    if id == 1
    then some (record { registrar_id = some 7; user_deleted = false })
    else if id == 2
    then some (record { registrar_id = some 8; user_deleted = false })
    else if id == 3
    then some (record { registrar_id = some 7; user_deleted = true })
    else none

abbrev approved : ℕ → Bool
approved id = id == 7 || id == 8

abbrev admin : User
admin = record (new_account 1).user { is_staff = true }

abbrev librarian : User
librarian = record (new_account 2).user { registrar_id = some 7 }

abbrev form : ℕ → Form
form id = record { fields_valid = true; key = id }

-- A user of organizations 1 and 3.
abbrev member : Account
member = record (new_account 3) {
  user = record (new_account 3).user { organizations = 1 ∷ 3 ∷ [] };
}

abbrev recruited : Account
recruited = record (new_account 3) {
  user = record (new_account 3).user { registrar_id = some 7; organizations = 3 ∷ [] };
}

abbrev joined : Account
joined = record (new_account 4) { user = record (new_account 4).user { organizations = 1 ∷ [] } }

recruits :
    add_user_to_registrar organizations approved librarian 9 (some member) (form 7)
    ≡ saved recruited
unfolding add_user_to_registrar is_organization_user
recruits = refl

foreign_member :
    add_user_to_registrar organizations approved librarian 9
      (some (record joined { user = record joined.user { organizations = 2 ∷ [] } }))
      (form 7)
    ≡ refused in_foreign_organizations
unfolding add_user_to_registrar is_organization_user
foreign_member = refl

joins : add_user_to_organization organizations librarian 4 none (form 1) ≡ saved joined
unfolding add_user_to_organization is_organization_user
joins = refl

admin_stays_out :
    add_user_to_organization organizations librarian 4
      (some (record joined { user = admin }))
      (form 1)
    ≡ refused is_admin
unfolding add_user_to_organization is_organization_user
admin_stays_out = refl

handle_all-IsInOneGroup_example : IsInOneGroup organizations (
    handle_all organizations approved none (
      (librarian, to_organization 4 (form 1))
      ∷ (admin, to_registrar 4 (form 7))
      ∷ (librarian, to_organization 4 (form 1))
      ∷ (admin, to_admin 4 (form 0))
      ∷ []))
handle_all-IsInOneGroup_example =
    handle_all-IsInOneGroup organizations approved none
      ((librarian, to_organization 4 (form 1))
        ∷ (admin, to_registrar 4 (form 7))
        ∷ (librarian, to_organization 4 (form 1))
        ∷ (admin, to_admin 4 (form 0))
        ∷ [])
      refl tt

add_user_to_registrar-recruits_example :
    (member.user.is_staff ≡ false)
    × (is_registrar_user organizations member.user ≡ false)
    × (any_of (is_foreign organizations librarian) member.user.organizations ≡ false)
    × (recruited.user.registrar_id ≡ librarian.registrar_id)
    × (is_organization_user organizations recruited.user ≡ false)
add_user_to_registrar-recruits_example =
    add_user_to_registrar-recruits organizations approved librarian 9 member recruited (form 7) refl
      recruits

-- The approval of registrar 8 puts the user of an organization in two groups.
approved_member :
    in_one_group organizations
      (elim (after organizations
        (some joined)
        (approve_pending_registrar organizations admin true (some joined) (form 8))) [
          | none ↦ admin
          | some account ↦ account.user
        ])
    ≡ false
unfolding approve_pending_registrar is_organization_user
approved_member = refl
