-- ===== src/Examples/Permissions.antt =====
-- A table of three organizations, the second of them deleted, and users of each kind.
use perma.Prelude.{
  inl, inr, ◌≡◌, refl, true, false, ◌||◌, none, some, [], ◌∷◌, arith, ◌==◌, if◌then◌else◌, any_of,
}
use perma.Access.{
  Roots, Organizations, User, Folder, takedown, Link, folder_accessible_to, folder_filter,
  link_filter, can_edit,
}
use perma.Access.Folders.{
  HasOneRole, folder_accessible_to-eq-folder_filter, deleted_organization_folder,
}
use perma.Access.Links.{can_edit-eq-link_filter, sponsored_by_own}
use perma.Access.Organizations.{HasSoleRole}

abbrev table : Organizations
table id =
    if id == 1
    then some (record { registrar_id = some 7; user_deleted = false })
    else if id == 2
    then some (record { registrar_id = some 7; user_deleted = true })
    else none

abbrev registrar_user : User
registrar_user = record {
  pk = 10;
  is_anonymous = false;
  is_staff = false;
  registrar_id = some 7;
  organizations = [];
  sponsoring_registrars = [];
}

abbrev organization_user : User
organization_user = record {
  pk = 11;
  is_anonymous = false;
  is_staff = false;
  registrar_id = none;
  organizations = 1 ∷ [];
  sponsoring_registrars = [];
}

abbrev organization_folder : Folder
organization_folder = record {
  owned_by_id = none;
  organization_id = some 1;
  sponsored_by_id = none;
}

abbrev taken_down : Link
taken_down = record {
  is_private = true;
  private_reason = some takedown;
  user_deleted = false;
  archive_timestamp = 100;
  folders = organization_folder ∷ [];
}

organization_user-HasOneRole : HasOneRole organization_user
organization_user-HasOneRole = record {
  exclusive = λ h. ground arith;
  known = refl;
  registrar_set = inl refl;
}

registrar_user-HasOneRole : HasOneRole registrar_user
registrar_user-HasOneRole = record { exclusive = λ h. refl; known = refl; registrar_set = inr refl }

organization_user-HasSoleRole : HasSoleRole organization_user
organization_user-HasSoleRole = record {
  known = refl;
  staff_only = λ h. ground arith;
  registrar_only = λ h. ground arith;
}

folder_accessible_to-eq-folder_filter_example :
    folder_accessible_to table organization_user organization_folder
    ≡ folder_filter table organization_user organization_folder
folder_accessible_to-eq-folder_filter_example =
    folder_accessible_to-eq-folder_filter table organization_user organization_folder
      organization_user-HasOneRole
      (record {
        one = inr refl;
        organization_live = inr (1, refl, refl, refl);
        sponsor_set = inl refl;
      })

abbrev deleted_folder : Folder
deleted_folder = record { owned_by_id = none; organization_id = some 2; sponsored_by_id = none }

deleted_organization_folder_example :
    (folder_accessible_to table registrar_user deleted_folder ≡ true)
    × (folder_filter table registrar_user deleted_folder ≡ false)
deleted_organization_folder_example =
    deleted_organization_folder table registrar_user deleted_folder 1 6
      (record { registrar_id = some 7; user_deleted = true }) refl registrar_user-HasOneRole refl
      refl refl refl

can_edit-eq-link_filter_example : can_edit table organization_user taken_down ≡ (
    link_filter table organization_user taken_down
    || any_of (sponsored_by_own organization_user) taken_down.folders)
can_edit-eq-link_filter_example =
    can_edit-eq-link_filter table organization_user taken_down refl refl

abbrev roots : Roots
roots = record { root_folder_id = some 20; sponsored_root_folder_id = some 21 }
