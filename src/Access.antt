-- ===== src/Access.antt =====
-- Who may see and change what: the permission methods of `LinkUser` (perma_web/perma/models/user.py)
-- and the `accessible_to` and `user_access_filter` of folders, links and organizations (folder.py,
-- link.py and organization.py beside it).
pub mod Folders
pub mod Links
pub mod Organizations
pub mod Scope
use perma.Prelude.{
  ℕ, Bool, true, false, not, ◌&&◌, ◌||◌, Option, none, some, List, [], ◌∷◌, ltb, ◌==◌,
  if◌then◌else◌, same_key, truthy, any_of, filter_if,
}

-- `registrar_id` and `user_deleted` of `Organization`.
pub record Organization : Type 0 where
  pub registrar_id : Option ℕ
  pub user_deleted : Bool

-- The rows of `Organization` by primary key, the deleted ones among them.
abbrev pub Organizations : Type 0
Organizations = ℕ → Option Organization

-- `organizations` and `sponsoring_registrars` are the keys of the user's affiliations and sponsorships.
pub record User : Type 0 where
  pub pk : ℕ
  pub is_anonymous : Bool
  pub is_staff : Bool
  pub registrar_id : Option ℕ
  pub organizations : List ℕ
  pub sponsoring_registrars : List ℕ

pub record Folder : Type 0 where
  pub owned_by_id : Option ℕ
  pub organization_id : Option ℕ
  pub sponsored_by_id : Option ℕ

-- The two folders of a user's own.
pub record Roots : Type 0 where
  pub root_folder_id : Option ℕ
  pub sponsored_root_folder_id : Option ℕ

pub data PrivateReason : Type 0 where
  domain meta_perma meta by_user takedown failure flagged old_policy : PrivateReason

pub record Link : Type 0 where
  pub is_private : Bool
  pub private_reason : Option PrivateReason
  pub user_deleted : Bool
  pub archive_timestamp : ℕ
  pub folders : List Folder

abbrev pub contains : List ℕ → ℕ → Bool
contains ids id = any_of (λ other. other == id) ids

module _ (table : Organizations) where
  -- The default manager, and the managers of relations to `Organization`, hide deleted rows.
  abbrev pub is_live : ℕ → Bool
  is_live id = elim (table id) [ none ↦ false | some row ↦ not row.user_deleted ]

  -- `organization.registrar_id` of any row, deleted or not.
  abbrev pub registrar_of : ℕ → Option ℕ
  registrar_of id = elim (table id) [ none ↦ none | some row ↦ row.registrar_id ]

  -- `self.organizations.filter(pk=id).exists()`
  abbrev pub is_member : User → ℕ → Bool
  is_member user id = contains user.organizations id && is_live id

  unfoldable pub is_organization_user : User → Bool
  is_organization_user user = not user.is_anonymous && any_of is_live user.organizations

  abbrev pub is_registrar_user : User → Bool
  is_registrar_user user = truthy user.registrar_id

  -- Is the organization in `user.get_orgs()`?
  unfoldable pub in_get_orgs : User → ℕ → Bool
  in_get_orgs user id =
      if is_organization_user user
      then is_member user id
      else if is_registrar_user user
      then is_live id && same_key (registrar_of id) user.registrar_id
      else if user.is_staff
      then is_live id
      else false

  abbrev pub key_in_get_orgs : User → Option ℕ → Bool
  key_in_get_orgs user none = false
  key_in_get_orgs user (some id) = in_get_orgs user id

  -- `FolderQuerySet.user_access_filter`: does the filter let the folder through?
  unfoldable pub folder_filter : User → Folder → Bool
  folder_filter user folder =
      if user.is_staff
      then true
      else same_key folder.owned_by_id (some user.pk)
        || key_in_get_orgs user folder.organization_id
        || truthy user.registrar_id && same_key folder.sponsored_by_id user.registrar_id

  -- The organization branch of `Folder.accessible_to`.
  abbrev pub organization_access : User → Option ℕ → Bool
  organization_access user none = false
  organization_access user (some id) =
      if is_registrar_user user
      then same_key user.registrar_id (registrar_of id)
      else is_member user id

  -- `Folder.accessible_to`; where no branch returns, Python returns `None`.
  unfoldable pub folder_accessible_to : User → Folder → Bool
  folder_accessible_to user folder =
      if user.is_staff
      then true
      else if same_key folder.owned_by_id (some user.pk)
      then true
      else if truthy folder.sponsored_by_id
      then same_key folder.sponsored_by_id user.registrar_id
      else if truthy folder.organization_id
      then organization_access user folder.organization_id
      else false

  -- `LinkQuerySet.user_access_filter`
  unfoldable pub link_filter : User → Link → Bool
  link_filter user link =
      if user.is_staff
      then true
      else any_of
          (λ (folder : Folder).
            same_key folder.owned_by_id (some user.pk)
            || key_in_get_orgs user folder.organization_id)
          link.folders

  unfoldable pub can_edit : User → Link → Bool
  can_edit user link =
      if user.is_anonymous
      then false
      else if user.is_staff
      then true
      else any_of (folder_filter user) link.folders

  unfoldable pub can_view : User → Link → Bool
  can_view user link = if not link.is_private then true else can_edit user link

  -- `Link.is_permanent` at the time `now`.
  abbrev pub is_permanent : ℕ → Link → Bool
  is_permanent now link = ltb link.archive_timestamp now && not link.user_deleted

  unfoldable pub can_delete : ℕ → User → Link → Bool
  can_delete now user link =
      not link.user_deleted && not (is_permanent now link) && can_edit user link

  abbrev pub user_may_undo : Option PrivateReason → Bool
  user_may_undo (some by_user) = true
  user_may_undo (some old_policy) = true
  user_may_undo _ = false

  unfoldable pub can_toggle_private : User → Link → Bool
  can_toggle_private user link =
      if not (can_edit user link)
      then false
      else if link.is_private && not user.is_staff && not (user_may_undo link.private_reason)
      then false
      else true

  -- `OrganizationQuerySet.user_access_filter` over the default manager.
  unfoldable pub organization_filter : User → ℕ → Bool
  organization_filter user id =
      if is_organization_user user
      then is_member user id
      else if is_registrar_user user
      then is_live id && same_key (registrar_of id) user.registrar_id
      else if user.is_staff
      then is_live id
      else false

  -- `Organization.accessible_to`: `self.users` is a relation to users, which hides none.
  unfoldable pub organization_accessible_to : User → ℕ → Bool
  organization_accessible_to user id =
      if user.is_staff
      then true
      else if is_registrar_user user
      then same_key (registrar_of id) user.registrar_id
      else contains user.organizations id

  unfoldable pub can_edit_organization : User → ℕ → Bool
  can_edit_organization user id =
      if user.is_staff
      then true
      else if truthy user.registrar_id
      then same_key user.registrar_id (registrar_of id)
      else is_member user id

  -- `LinkUser.shares_scope_with_user`
  abbrev pub live_organizations : List ℕ → List ℕ
  live_organizations = filter_if is_live

  unfoldable pub shares_scope_with_user : User → User → Bool
  shares_scope_with_user user other =
      if is_organization_user user
      then any_of (λ id. contains other.organizations id) (live_organizations user.organizations)
      else if is_registrar_user user
      then same_key user.registrar_id other.registrar_id
        || any_of (λ id. same_key (some id) user.registrar_id) other.sponsoring_registrars
        || any_of (λ id. is_live id && same_key (registrar_of id) user.registrar_id)
            other.organizations
      else user.is_staff

  -- `LinkUser.top_level_folders`: is the folder listed, and its `custom_order`. `shared_by` finds the
  -- organization whose shared folder it is. The second `When` tests the key of the first once more.
  unfoldable pub is_top_level : User → Roots → (ℕ → Option ℕ) → ℕ → Bool
  is_top_level user roots shared_by id =
      same_key roots.root_folder_id (some id)
      || truthy roots.sponsored_root_folder_id && same_key roots.sponsored_root_folder_id (some id)
      || key_in_get_orgs user (shared_by id)

unfoldable pub custom_order : Roots → ℕ → ℕ
custom_order roots id =
    if same_key roots.root_folder_id (some id)
    then 0
    else if truthy roots.sponsored_root_folder_id && same_key roots.root_folder_id (some id)
    then 1
    else 2
