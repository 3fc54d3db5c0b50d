-- ===== src/UserManagement.antt =====
-- The views that put users in groups and take them out: perma_web/perma/views/user_management/views.py,
-- with the forms they save (perma_web/perma/forms.py), and `approve_pending_registrar` of
-- perma_web/perma/views/user_sign_up.py. A new user's password, e-mails, messages, redirects
-- and the ends of affiliations are left out, and a request is a POST; a form's other fields are valid or not by an argument.
pub mod Groups
pub mod Recruits
use perma.Prelude.{
  ℕ, Bool, true, false, not, ◌&&◌, ◌||◌, Option, none, some, List, [], ◌∷◌, ◌==◌, if◌then◌else◌,
  same_key, truthy, any_of, filter_if,
}
use perma.Access.{
  Organizations, User, contains, is_live, registrar_of, is_organization_user, is_registrar_user,
  organization_filter,
}

-- What `BaseAddUserToGroup.dispatch` says of a user who cannot be added.
pub data Refusal : Type 0 where
  is_admin is_registrar in_same_registrar in_other_registrar in_foreign_organizations
        exists_already :
      Refusal

pub record Account : Type 0 where
  pub user : User
  pub is_active : Bool
  pub is_confirmed : Bool

pub data Answer : Type 0 where
  forbidden not_found form_invalid deleted : Answer
  -- nothing of the user changes
  done : Answer
  refused : Refusal → Answer
  saved : Account → Answer

-- The submitted form: the key of the organization or registrar, and whether the other fields are valid.
pub record Form : Type 0 where
  pub fields_valid : Bool
  pub key : ℕ

abbrev pub new_account : ℕ → Account
new_account pk = record {
  user = record {
    pk = pk;
    is_anonymous = false;
    is_staff = false;
    registrar_id = none;
    organizations = [];
    sponsoring_registrars = [];
  };
  is_active = false;
  is_confirmed = false;
}

-- `form.instance`: the user with the address, or a new one.
abbrev pub instance_of : ℕ → Option Account → Account
instance_of pk none = new_account pk
instance_of pk (some account) = account

abbrev pub dispatch : Option Refusal → Answer → Answer
dispatch (some refusal) answer = refused refusal
dispatch none answer = answer

abbrev pub form_answer : Bool → Account → Answer
form_answer valid account = if valid then saved account else form_invalid

abbrev pub get_or_404 : Option Account → (Account → Answer) → Answer
get_or_404 none view = not_found
get_or_404 (some account) view = view account

-- `UserFormWithRegistrar.save`
abbrev pub with_registrar : ℕ → Account → Account
with_registrar key account = record account {
  user = record account.user { registrar_id = some key };
}

module _ (table : Organizations) where
  -- `organizations.clear()`: the manager of the relation hides deleted organizations, so that the
  -- affiliations with these stay.
  abbrev pub clear_organizations : User → User
  clear_organizations user = record user {
    organizations = filter_if (λ id. not (is_live table id)) user.organizations;
  }

  -- `UserFormWithOrganization.save`
  abbrev pub with_organization : ℕ → Account → Account
  with_organization key account = record account {
    user = record account.user { organizations = key ∷ account.user.organizations };
  }

  -- `AddUserToOrganization.target_user_valid`
  abbrev pub organization_target_user_valid : Option Account → Option Refusal
  organization_target_user_valid none = none
  organization_target_user_valid (some account) =
      if account.user.is_staff
      then some is_admin
      else if is_registrar_user table account.user
      then some is_registrar
      else none

  -- The queryset of `UserFormWithOrganization` and of `UserAddOrganizationForm`.
  abbrev pub offers_organization : User → Account → ℕ → Bool
  offers_organization current account id =
      is_live table id
      && not (contains account.user.organizations id)
      && (if is_registrar_user table current
          then same_key (registrar_of table id) current.registrar_id
          else if is_organization_user table current
          then contains current.organizations id
          else true)

  unfoldable pub add_user_to_organization : User → ℕ → Option Account → Form → Answer
  add_user_to_organization current pk target form =
      if current.is_staff || is_registrar_user table current || is_organization_user table current
      then dispatch (organization_target_user_valid target) (
          form_answer
            (form.fields_valid && offers_organization current (instance_of pk target) form.key)
            (with_organization form.key (instance_of pk target)))
      else forbidden

  -- Is the organization outside of the current user's registrar?
  abbrev pub is_foreign : User → ℕ → Bool
  is_foreign current id =
      is_live table id && not (same_key (registrar_of table id) current.registrar_id)

  -- `AddUserToRegistrar.target_user_valid`
  abbrev pub registrar_target_user_valid : User → Option Account → Option Refusal
  registrar_target_user_valid current none = none
  registrar_target_user_valid current (some account) =
      if account.user.is_staff
      then some is_admin
      else if is_registrar_user table current
      then if is_registrar_user table account.user
        then if same_key account.user.registrar_id current.registrar_id
          then some in_same_registrar
          else some in_other_registrar
        else if any_of (is_foreign current) account.user.organizations
        then some in_foreign_organizations
        else none
      else none

  -- The queryset of `UserFormWithRegistrar`; `approved` tells the approved registrars.
  abbrev pub offers_registrar : (ℕ → Bool) → User → ℕ → Bool
  offers_registrar approved current id =
      approved id
      && (if is_registrar_user table current then same_key (some id) current.registrar_id else true)

  -- `UserFormWithRegistrar.save` of a new user, `UserAddRegistrarForm.save` of another.
  abbrev pub save_registrar : ℕ → ℕ → Option Account → Account
  save_registrar key pk none = with_registrar key (new_account pk)
  save_registrar key pk (some account) =
      with_registrar key (record account { user = clear_organizations account.user })

  unfoldable pub add_user_to_registrar : (ℕ → Bool) → User → ℕ → Option Account → Form → Answer
  add_user_to_registrar approved current pk target form =
      if current.is_staff || is_registrar_user table current
      then dispatch (registrar_target_user_valid current target) (
          form_answer (form.fields_valid && offers_registrar approved current form.key)
            (save_registrar form.key pk target))
      else forbidden

  -- `UserFormWithAdmin.save` of a new user, `UserAddAdminForm.save` of another.
  abbrev pub save_admin : ℕ → Option Account → Account
  save_admin pk none = record (new_account pk) {
    user = record (new_account pk).user { is_staff = true };
  }
  save_admin pk (some account) = record account {
    user = clear_organizations (record account.user { is_staff = true; registrar_id = none });
  }

  unfoldable pub add_user_to_admin : User → ℕ → Option Account → Form → Answer
  add_user_to_admin current pk target form =
      if current.is_staff then form_answer form.fields_valid (save_admin pk target) else forbidden

  -- `AddRegularUser.target_user_valid`
  abbrev pub regular_target_user_valid : Option Account → Option Refusal
  regular_target_user_valid none = none
  regular_target_user_valid (some account) = some exists_already

  unfoldable pub add_regular_user : User → ℕ → Option Account → Form → Answer
  add_regular_user current pk target form =
      if current.is_staff
      then dispatch (regular_target_user_valid target)
          (form_answer form.fields_valid (instance_of pk target))
      else forbidden

  unfoldable pub delete_user_in_group : User → Option Account → Answer
  delete_user_in_group current target =
      if current.is_staff
      then get_or_404 target (λ account.
        if account.is_confirmed
        then saved (record account {
          is_active = false;
          user = record (clear_organizations account.user) { registrar_id = none };
        })
        else deleted)
      else forbidden

  unfoldable pub reactive_user_in_group : User → Option Account → Answer
  reactive_user_in_group current target =
      if current.is_staff
      then get_or_404 target (λ account. saved (record account { is_active = true }))
      else forbidden

  -- The user leaves the organization of their own accord.
  unfoldable pub organization_user_leave_organization : ℕ → Account → Answer
  organization_user_leave_organization org_id account =
      if is_organization_user table account.user
      then if organization_filter table account.user org_id
        then saved (record account {
          user = record account.user {
            organizations = filter_if (λ id. not (id == org_id)) account.user.organizations;
          };
        })
        else not_found
      else forbidden

  unfoldable pub manage_single_registrar_user_remove : User → Option Account → Answer
  manage_single_registrar_user_remove current target =
      if is_registrar_user table current
      then get_or_404 target (λ account.
        if same_key current.registrar_id account.user.registrar_id
        then saved (record account { user = record account.user { registrar_id = none } })
        else forbidden)
      else forbidden

  unfoldable pub manage_single_admin_user_remove : User → Option Account → Answer
  manage_single_admin_user_remove current target =
      if current.is_staff
      then get_or_404 target
          (λ account. saved (record account { user = record account.user { is_staff = false } }))
      else forbidden

  -- What an approval does to the registrar's pending user, or first user; `pending_registrar` is left out.
  abbrev pub approve_user : Bool → ℕ → Option Account → Answer
  approve_user true key (some account) = saved (with_registrar key account)
  approve_user true key none = done
  approve_user false key target = done

  -- `form.key` is the registrar, and `is_approved` whether the new status is "approved".
  unfoldable pub approve_pending_registrar : User → Bool → Option Account → Form → Answer
  approve_pending_registrar current is_approved target form =
      if current.is_staff
      then if form.fields_valid then approve_user is_approved form.key target else form_invalid
      else forbidden
