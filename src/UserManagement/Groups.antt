-- ===== src/UserManagement/Groups.antt =====
-- No request puts a user in two of the groups: administrators, registrar users, organization users.
use perma.Prelude.{
  ℕ, Bool, true, false, not, ◌&&◌, truthy, ◌≡◌, refl, inl, inr, Option, none, some, List, [], ◌∷◌,
  ◌==◌, any_of, filter_if, arith, Bool-cases,
}
use perma.Access.{Organizations, User, is_live, is_organization_user, is_registrar_user}
use perma.UserManagement.{
  Account, Answer, forbidden, not_found, form_invalid, deleted, refused, saved, done,
  with_registrar, approve_pending_registrar, Form, add_user_to_organization, add_user_to_registrar,
  add_user_to_admin, add_regular_user, delete_user_in_group, reactive_user_in_group,
  organization_user_leave_organization, manage_single_registrar_user_remove,
  manage_single_admin_user_remove,
}

module _ (table : Organizations) where
  abbrev pub in_one_group : User → Bool
  in_one_group user =
      not (user.is_staff && is_registrar_user table user)
      && not (user.is_staff && is_organization_user table user)
      && not (is_registrar_user table user && is_organization_user table user)

  -- The user, if there is one, is in one group at most.
  abbrev pub IsInOneGroup : Option Account → Type 0
  IsInOneGroup none = Unit
  IsInOneGroup (some account) = in_one_group account.user ≡ true

  -- What the request leaves of the user.
  abbrev pub after : Option Account → Answer → Option Account
  after target (saved account) = some account
  after target deleted = none
  after target forbidden = target
  after target not_found = target
  after target form_invalid = target
  after target (refused refusal) = target
  after target done = target

  -- Clearing leaves no live organization.
  pub any_of-clear_organizations :
      (ids : List ℕ) → any_of (is_live table) (filter_if (λ id. not (is_live table id)) ids) ≡ false
  any_of-clear_organizations [] = refl
  any_of-clear_organizations (id ∷ ids) = elim (Bool-cases (is_live table id)) [
    | inl live ↦ rw live (any_of-clear_organizations ids)
    | inr hidden ↦ rw hidden (rw hidden (any_of-clear_organizations ids))
  ]

  any_of-filter_if :
      (p q : ℕ → Bool) (ids : List ℕ) → any_of p ids ≡ false → any_of p (filter_if q ids) ≡ false
  any_of-filter_if p q [] h = refl
  any_of-filter_if p q (id ∷ ids) h = elim (Bool-cases (q id)) [
    | inl kept ↦ ground (arith, any_of-filter_if p q ids)
    | inr dropped ↦ ground (arith, any_of-filter_if p q ids)
  ]

  pub add_user_to_registrar-IsInOneGroup :
      (approved : ℕ → Bool) (current : User) (pk : ℕ) (target : Option Account) (form : Form)
      → IsInOneGroup target
      → IsInOneGroup (after target (add_user_to_registrar table approved current pk target form))
  unfolding add_user_to_registrar is_organization_user
  add_user_to_registrar-IsInOneGroup approved current pk none form h = ground arith
  add_user_to_registrar-IsInOneGroup approved current pk (some account) form h =
      ground (arith, any_of-clear_organizations account.user.organizations)

  pub add_user_to_organization-IsInOneGroup :
      (current : User) (pk : ℕ) (target : Option Account) (form : Form)
      → IsInOneGroup target
      → IsInOneGroup (after target (add_user_to_organization table current pk target form))
  unfolding add_user_to_organization is_organization_user
  add_user_to_organization-IsInOneGroup current pk none form h = ground arith
  add_user_to_organization-IsInOneGroup current pk (some account) form h = ground arith

  pub add_user_to_admin-IsInOneGroup :
      (current : User) (pk : ℕ) (target : Option Account) (form : Form)
      → IsInOneGroup target
      → IsInOneGroup (after target (add_user_to_admin table current pk target form))
  unfolding add_user_to_admin is_organization_user
  add_user_to_admin-IsInOneGroup current pk none form h = ground arith
  add_user_to_admin-IsInOneGroup current pk (some account) form h =
      ground (arith, any_of-clear_organizations account.user.organizations)

  pub add_regular_user-IsInOneGroup :
      (current : User) (pk : ℕ) (target : Option Account) (form : Form)
      → IsInOneGroup target
      → IsInOneGroup (after target (add_regular_user table current pk target form))
  unfolding add_regular_user is_organization_user
  add_regular_user-IsInOneGroup current pk none form h = ground arith
  add_regular_user-IsInOneGroup current pk (some account) form h = ground arith

  pub delete_user_in_group-IsInOneGroup :
      (current : User) (target : Option Account)
      → IsInOneGroup target
      → IsInOneGroup (after target (delete_user_in_group table current target))
  unfolding delete_user_in_group is_organization_user
  delete_user_in_group-IsInOneGroup current none h = ground arith
  delete_user_in_group-IsInOneGroup current (some account) h =
      ground (arith, any_of-clear_organizations account.user.organizations)

  pub leave-IsInOneGroup :
      (org_id : ℕ) (account : Account)
      → IsInOneGroup (some account)
      → IsInOneGroup
          (after (some account) (organization_user_leave_organization table org_id account))
  unfolding organization_user_leave_organization is_organization_user
  leave-IsInOneGroup org_id account h = ground (
    arith,
    any_of-filter_if (is_live table) (λ id. not (id == org_id)) account.user.organizations,
  )

  pub reactive_user_in_group-IsInOneGroup :
      (current : User) (target : Option Account)
      → IsInOneGroup target
      → IsInOneGroup (after target (reactive_user_in_group table current target))
  unfolding reactive_user_in_group is_organization_user
  reactive_user_in_group-IsInOneGroup current none h = ground arith
  reactive_user_in_group-IsInOneGroup current (some account) h = ground arith

  pub manage_single_registrar_user_remove-IsInOneGroup :
      (current : User) (target : Option Account)
      → IsInOneGroup target
      → IsInOneGroup (after target (manage_single_registrar_user_remove table current target))
  unfolding manage_single_registrar_user_remove is_organization_user
  manage_single_registrar_user_remove-IsInOneGroup current none h = ground arith
  manage_single_registrar_user_remove-IsInOneGroup current (some account) h = ground arith

  pub manage_single_admin_user_remove-IsInOneGroup :
      (current : User) (target : Option Account)
      → IsInOneGroup target
      → IsInOneGroup (after target (manage_single_admin_user_remove table current target))
  unfolding manage_single_admin_user_remove is_organization_user
  manage_single_admin_user_remove-IsInOneGroup current none h = ground arith
  manage_single_admin_user_remove-IsInOneGroup current (some account) h = ground arith

  -- The approval of a registrar looks at no group: it leaves the user in one group exactly if the user is
  -- neither an administrator nor the user of a live organization.
  pub approve_pending_registrar-in_one_group :
      (current : User) (account : Account) (form : Form)
      → current.is_staff ≡ true
      → form.fields_valid ≡ true
      → truthy (some form.key) ≡ true
      → (account' : Account) × (approve_pending_registrar table current true (some account) form
          ≡ saved account')
        × (in_one_group account'.user
            ≡ (not account.user.is_staff && not (is_organization_user table account.user)))
  unfolding approve_pending_registrar is_organization_user
  approve_pending_registrar-in_one_group current account form s v k =
      (with_registrar form.key account, rw (s, v) refl, ground arith)

-- The requests about one user: those that add the user to a group, with the key of a new row, and
-- those that change what the user has. `approve` has whether the registrar is approved.
pub data Request : Type 0 where
  to_organization to_registrar to_admin to_regular : ℕ → Form → Request
  deactivate reactivate demote_registrar demote_admin : Request
  leave : ℕ → Request
  approve : Bool → Form → Request

-- An approval of a registrar does not look at the user's groups.
abbrev pub is_approval : Request → Bool
is_approval (approve is_approved form) = true
is_approval _ = false

module _ (table : Organizations) (approved : ℕ → Bool) where
  -- The user leaves an organization for themselves; any other request is the current user's.
  abbrev pub handle : User → Option Account → Request → Answer
  handle current target (to_organization pk form) =
      add_user_to_organization table current pk target form
  handle current target (to_registrar pk form) =
      add_user_to_registrar table approved current pk target form
  handle current target (to_admin pk form) = add_user_to_admin table current pk target form
  handle current target (to_regular pk form) = add_regular_user table current pk target form
  handle current target deactivate = delete_user_in_group table current target
  handle current target reactivate = reactive_user_in_group table current target
  handle current target demote_registrar = manage_single_registrar_user_remove table current target
  handle current target demote_admin = manage_single_admin_user_remove table current target
  handle current target (approve is_approved form) =
      approve_pending_registrar table current is_approved target form
  handle current none (leave org_id) = not_found
  handle current (some account) (leave org_id) =
      organization_user_leave_organization table org_id account

  handle-IsInOneGroup :
      (current : User) (target : Option Account) (request : Request)
      → is_approval request ≡ false
      → IsInOneGroup table target
      → IsInOneGroup table (after table target (handle current target request))
  handle-IsInOneGroup current target (to_organization pk form) u h =
      add_user_to_organization-IsInOneGroup table current pk target form h
  handle-IsInOneGroup current target (to_registrar pk form) u h =
      add_user_to_registrar-IsInOneGroup table approved current pk target form h
  handle-IsInOneGroup current target (to_admin pk form) u h =
      add_user_to_admin-IsInOneGroup table current pk target form h
  handle-IsInOneGroup current target (to_regular pk form) u h =
      add_regular_user-IsInOneGroup table current pk target form h
  handle-IsInOneGroup current target deactivate u h =
      delete_user_in_group-IsInOneGroup table current target h
  handle-IsInOneGroup current target reactivate u h =
      reactive_user_in_group-IsInOneGroup table current target h
  handle-IsInOneGroup current target demote_registrar u h =
      manage_single_registrar_user_remove-IsInOneGroup table current target h
  handle-IsInOneGroup current target demote_admin u h =
      manage_single_admin_user_remove-IsInOneGroup table current target h
  handle-IsInOneGroup current target (approve is_approved form) u h = cc
  handle-IsInOneGroup current none (leave org_id) u h = h
  handle-IsInOneGroup current (some account) (leave org_id) u h =
      leave-IsInOneGroup table org_id account h

  -- Requests one after the other, each with the user who sends it.
  abbrev pub handle_all : Option Account → List (User × Request) → Option Account
  handle_all target [] = target
  handle_all target ((current, request) ∷ requests) =
      handle_all (after table target (handle current target request)) requests

  -- A user who is in one group at most, an administrator, a registrar user or the user of organizations
  -- that are not deleted, and also an address without a user, stays so through any sequence of these
  -- requests: to add the user to an organization, a registrar, the administrators or the regular users, to
  -- deactivate or reactivate the user, to take a registrar or an administrator's place away, and to leave an
  -- organization; while no organization is deleted or restored. The approval of a pending registrar,
  -- which gives a user a registrar whatever groups the user is in, is not among them.
  pub handle_all-IsInOneGroup :
      (target : Option Account) (requests : List (User × Request))
      → any_of (λ sent. is_approval sent.1) requests ≡ false
      → IsInOneGroup table target
      → IsInOneGroup table (handle_all target requests)
  handle_all-IsInOneGroup target [] u h = h
  handle_all-IsInOneGroup target ((current, request) ∷ requests) u h =
      handle_all-IsInOneGroup (after table target (handle current target request)) requests
        (ground arith) (handle-IsInOneGroup current target request (ground arith) h)
