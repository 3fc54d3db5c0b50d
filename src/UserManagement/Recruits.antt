-- ===== src/UserManagement/Recruits.antt =====
-- Whom a registrar user can make a registrar user.
use perma.Prelude.{ℕ, Bool, true, false, ◌≡◌, Option, none, some, ◌∷◌, any_of, arith, same_key-eq}
use perma.Access.{
  Organizations, User, registrar_of, is_organization_user, is_registrar_user, can_edit_organization,
  contains,
}
use perma.Access.Folders.{same_key_sym}
use perma.UserManagement.{
  Account, saved, Form, add_user_to_registrar, is_foreign, add_user_to_organization, instance_of,
}
use perma.UserManagement.Groups.{any_of-clear_organizations}

-- Where a registrar user makes another user a registrar user, the other was neither an administrator
-- nor a registrar user, had no live organization outside the registrar of the first, and gets this
-- registrar and leaves every live organization.
pub add_user_to_registrar-recruits :
    (table : Organizations) (approved : ℕ → Bool) (current : User) (pk : ℕ)
    (account account' : Account) (form : Form)
    → is_registrar_user table current ≡ true
    → add_user_to_registrar table approved current pk (some account) form ≡ saved account'
    → (account.user.is_staff ≡ false)
      × (is_registrar_user table account.user ≡ false)
      × (any_of (is_foreign table current) account.user.organizations ≡ false)
      × (account'.user.registrar_id ≡ current.registrar_id)
      × (is_organization_user table account'.user ≡ false)
unfolding add_user_to_registrar is_organization_user
add_user_to_registrar-recruits table approved current pk account account' form r e = ground (
  arith,
  any_of-clear_organizations table account.user.organizations,
  same_key-eq (some form.key) current.registrar_id,
)

-- Where someone who is not an administrator adds a user to an organization, they can edit this
-- organization, and the user, if there was one, was neither an administrator nor a registrar user nor yet in it.
pub add_user_to_organization-can_edit_organization :
    (table : Organizations) (current : User) (pk : ℕ) (target : Option Account) (account' : Account)
    (form : Form)
    → current.is_staff ≡ false
    → add_user_to_organization table current pk target form ≡ saved account'
    → (can_edit_organization table current form.key ≡ true)
      × ((instance_of pk target).user.is_staff ≡ false)
      × (is_registrar_user table (instance_of pk target).user ≡ false)
      × (contains (instance_of pk target).user.organizations form.key ≡ false)
      × (account'.user.organizations ≡ form.key ∷ (instance_of pk target).user.organizations)
unfolding add_user_to_organization is_organization_user can_edit_organization
add_user_to_organization-can_edit_organization table current pk none account' form h e =
    ground (arith, same_key_sym (registrar_of table form.key) current.registrar_id)
add_user_to_organization-can_edit_organization table current pk (some account) account' form h e =
    ground (arith, same_key_sym (registrar_of table form.key) current.registrar_id)
