-- ===== src/Access/Folders.antt =====
-- The two ways to ask who may use a folder, compared.
use perma.Prelude.{
  ℕ, ◌≡◌, refl, true, false, ◌&&◌, ◌⊎◌, inl, inr, Option, none, some, List, [], ◌∷◌, arith, ◌==◌,
  same_key, truthy, any_of, Bool-cases, sym, ==_iff, same_key-eq, same_key_refl, suc, zero,
}
use perma.Access.{
  Roots, is_top_level, custom_order, Organization, Organizations, User, Folder, contains, is_live,
  registrar_of, is_member, is_organization_user, in_get_orgs, organization_access, folder_filter,
  folder_accessible_to,
}

-- "This should not be set if registrar is set!": no user is a registrar user and an organization's
-- user at once. Keys that are set are not 0.
pub record HasOneRole (user : User) : Type 0 where
  pub exclusive : truthy user.registrar_id ≡ true → user.organizations ≡ []
  pub known : user.is_anonymous ≡ false
  pub registrar_set : (user.registrar_id ≡ none) ⊎ (truthy user.registrar_id ≡ true)

-- A folder has at most one of an organization and a sponsor, and its organization is not deleted.
pub record HasOneOwner (table : Organizations) (folder : Folder) : Type 0 where
  pub one : (folder.organization_id ≡ none) ⊎ (folder.sponsored_by_id ≡ none)
  pub organization_live :
      (folder.organization_id ≡ none)
      ⊎ ((id : ℕ) × (folder.organization_id ≡ some id)
          × (truthy (some id) ≡ true)
          × (is_live table id ≡ true))
  pub sponsor_set : (folder.sponsored_by_id ≡ none) ⊎ (truthy folder.sponsored_by_id ≡ true)

-- A user with no affiliation is no organization's user.
pub registrar_user_plain :
    (table : Organizations) (user : User)
    → user.organizations ≡ []
    → is_organization_user table user ≡ false
unfolding is_organization_user
registrar_user_plain table user e = ground arith

pub same_key_sym : (a b : Option ℕ) → same_key a b ≡ same_key b a
same_key_sym none none = refl
same_key_sym none (some b) = refl
same_key_sym (some a) none = refl
same_key_sym (some a) (some b) = ground arith

-- For a registrar user and a live organization the two tests are one.
in_get_orgs_registrar :
    (table : Organizations) (user : User) (id : ℕ)
    → HasOneRole user
    → truthy user.registrar_id ≡ true
    → is_live table id ≡ true
    → in_get_orgs table user id ≡ same_key user.registrar_id (registrar_of table id)
unfolding in_get_orgs
in_get_orgs_registrar table user id role r live =
    rw (registrar_user_plain table user (role.exclusive r))
      (rw (r, live) (same_key_sym (registrar_of table id) user.registrar_id))

-- Without a live organization the user is a member of none.
pub not_member :
    (table : Organizations) (ids : List ℕ) (id : ℕ)
    → any_of (is_live table) ids ≡ false
    → (contains ids id && is_live table id) ≡ false
not_member table [] id h = refl
not_member table (first ∷ ids) id h = elim (Bool-cases (first == id)) [
  | inl same ↦ rw same (rw (← (==_iff first id).0 same) (ground arith))
  | inr other ↦ rw other (not_member table ids id (ground arith))
]

-- For any other user who is no staff member, it is the affiliation that counts.
in_get_orgs_member :
    (table : Organizations) (user : User) (id : ℕ)
    → user.is_anonymous ≡ false
    → truthy user.registrar_id ≡ false
    → user.is_staff ≡ false
    → in_get_orgs table user id ≡ is_member table user id
unfolding in_get_orgs is_organization_user
in_get_orgs_member table user id known r s =
    rw (known, r, s)
      (elim (Bool-cases (any_of (is_live table) user.organizations)) [
        | inl some_live ↦ rw some_live
        | inr none_live ↦ rw none_live (sym (not_member table user.organizations id none_live))
      ])

-- The sponsor's part of the test.
sponsor_access :
    (user : User) (sponsor : Option ℕ)
    → truthy sponsor ≡ true
    → (truthy user.registrar_id && same_key sponsor user.registrar_id)
      ≡ same_key sponsor user.registrar_id
sponsor_access user sponsor h = elim (Bool-cases (same_key sponsor user.registrar_id)) [
  | inl same ↦ rw (← same_key-eq sponsor user.registrar_id same) (rw (h, same_key_refl sponsor))
  | inr other ↦ rw other (ground arith)
]

-- The organization's part of the test, for a live organization.
organization_access_lem :
    (table : Organizations) (user : User) (id : ℕ)
    → HasOneRole user
    → user.is_staff ≡ false
    → is_live table id ≡ true
    → in_get_orgs table user id ≡ organization_access table user (some id)
organization_access_lem table user id role s live = elim (Bool-cases (truthy user.registrar_id)) [
  | inl registrar ↦ rw registrar (in_get_orgs_registrar table user id role registrar live)
  | inr plain ↦ rw plain (in_get_orgs_member table user id role.known plain s)
]

no_sponsor : (key : Option ℕ) → (truthy key && same_key none key) ≡ false
no_sponsor none = refl
no_sponsor (some zero) = refl
no_sponsor (some (suc k)) = refl

-- `Folder.accessible_to` agrees with `Folder.objects.accessible_to`, for a user with one role and a
-- folder with one owner whose organization is not deleted.
pub folder_accessible_to-eq-folder_filter :
    (table : Organizations) (user : User) (folder : Folder)
    → HasOneRole user
    → HasOneOwner table folder
    → folder_accessible_to table user folder ≡ folder_filter table user folder
unfolding folder_accessible_to folder_filter
folder_accessible_to-eq-folder_filter table user folder role owner =
    elim (Bool-cases user.is_staff) [
      | inl staff ↦ rw staff
      | inr plain ↦ elim (Bool-cases (same_key folder.owned_by_id (some user.pk))) [
        | inl owned ↦ rw (plain, owned)
        | inr foreign ↦ elim owner.organization_live [
          | inl none_org ↦ elim owner.sponsor_set [
            | inl none_sponsor ↦ ground (arith, no_sponsor user.registrar_id)
            | inr sponsor ↦ ground (arith, sponsor_access user folder.sponsored_by_id sponsor)
          ]
          | inr (id, org, set, live) ↦ elim owner.one [
            | inl none_org ↦ cc
            | inr none_sponsor ↦ ground (
              arith,
              organization_access_lem table user id role plain live,
              no_sponsor user.registrar_id,
            )
          ]
        ]
      ]
    ]

-- A registrar user with no other role is let by `Folder.accessible_to` into the folder of a deleted
-- organization of the registrar, which the queryset does not show.
pub deleted_organization_folder :
    (table : Organizations) (user : User) (folder : Folder) (id registrar : ℕ) (row : Organization)
    → user.is_staff ≡ false
    → HasOneRole user
    → user.registrar_id ≡ some (suc registrar)
    → folder
      ≡ record { owned_by_id = none; organization_id = some (suc id); sponsored_by_id = none }
    → table (suc id) ≡ some row
    → row ≡ record { registrar_id = some (suc registrar); user_deleted = true }
    → (folder_accessible_to table user folder ≡ true) × (folder_filter table user folder ≡ false)
unfolding folder_accessible_to folder_filter in_get_orgs
deleted_organization_folder table user folder id registrar row plain role r f e d =
    let p = registrar_user_plain table user (role.exclusive (rw r)) in
    (ground arith, ground (arith, p))

-- The sponsored folder, if it is not the user's root folder, is a top-level folder that is ordered
-- as the organizations' folders are, and not before them.
pub custom_order_sponsored :
    (table : Organizations) (user : User) (roots : Roots) (shared_by : ℕ → Option ℕ) (id : ℕ)
    → roots.sponsored_root_folder_id ≡ some (suc id)
    → same_key roots.root_folder_id (some (suc id)) ≡ false
    → (is_top_level table user roots shared_by (suc id) ≡ true) × (custom_order roots (suc id) ≡ 2)
unfolding is_top_level custom_order
custom_order_sponsored table user roots shared_by id s r = (ground arith, ground arith)
