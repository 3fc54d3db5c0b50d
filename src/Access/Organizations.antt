-- ===== src/Access/Organizations.antt =====
-- The three tests for an organization: the queryset's, the organization's and the user's.
use perma.Prelude.{ℕ, ◌≡◌, true, false, inl, inr, none, [], arith, truthy, any_of, Bool-cases}
use perma.Access.{
  Organizations, User, is_live, registrar_of, is_organization_user, organization_filter,
  organization_accessible_to, can_edit_organization,
}
use perma.Access.Folders.{not_member, registrar_user_plain, same_key_sym}

-- One role at most: staff member, registrar user or organization user.
pub record HasSoleRole (user : User) : Type 0 where
  pub known : user.is_anonymous ≡ false
  pub staff_only : user.is_staff ≡ true → (user.registrar_id ≡ none) × (user.organizations ≡ [])
  pub registrar_only : truthy user.registrar_id ≡ true → user.organizations ≡ []

-- For a user with one role and an organization that is not deleted, the queryset's filter,
-- `Organization.accessible_to` and `can_edit_organization` agree.
pub organization_tests_agree :
    (table : Organizations) (user : User) (id : ℕ)
    → HasSoleRole user
    → is_live table id ≡ true
    → (organization_filter table user id ≡ organization_accessible_to table user id)
      × (can_edit_organization table user id ≡ organization_accessible_to table user id)
unfolding organization_filter organization_accessible_to can_edit_organization
organization_tests_agree table user id role live = elim (Bool-cases user.is_staff) [
  | inl staff ↦
      let (no_registrar, no_orgs) = role.staff_only staff in
      let plain = registrar_user_plain table user no_orgs in (ground (arith, plain), ground arith)
  | inr other ↦ elim (Bool-cases (truthy user.registrar_id)) [
    | inl registrar ↦
        let plain = registrar_user_plain table user (role.registrar_only registrar) in
        (
          ground (arith, plain),
          ground (arith, same_key_sym (registrar_of table id) user.registrar_id),
        )
    | inr member ↦ elim (Bool-cases (any_of (is_live table) user.organizations)) [
      | inl some_live ↦ (unfold is_organization_user in ground (arith, role.known), ground arith)
      | inr none_live ↦ (
        unfold is_organization_user in
            ground (arith, role.known, not_member table user.organizations id none_live),
        ground arith,
      )
    ]
  ]
]
