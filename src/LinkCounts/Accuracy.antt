-- ===== src/LinkCounts/Accuracy.antt =====
-- `adjust_owner_link_counts` keeps the counts accurate whenever the links change owners by as much as
-- it is told.
use mathlib.Core.Path.{subst, fun_ext}
use perma.Prelude.{
  ℕ, ◌+◌, ◌*◌, ◌≤◌, ◌≡◌, refl, true, false, Option, none, some, List, arith, same_key, indicator,
  Bool-cases, inl, inr, count_if, ◌==◌, same_key-eq, same_key_refl, sym, ap, ◌∙◌,
}
use perma.LinkCounts.{
  OrganizationRow, RegistrarRow, Table, Counts, OwnedLink, organization_count, registrar_count,
  sponsored_count, registrar_of, transfer, adjust_owner_link_counts,
}
use perma.LinkCounts.Census.{CountsOwners, in_organization, under_registrar, sponsored_by}
use perma.LinkCounts.Transfer.{
  transfer_same, transfer_row_of, transfer_row, transfer-none, organization_balance,
  registrar_balance, sponsored_balance, transfer_row_deleted, transfer_row_sponsored,
  transfer_row_registrar, registrar_of-transfer,
}

-- From one set of links to another, `n` of them have left the old owners for the new ones.
pub record IsRebalanced (n : ℕ)
    (old_org_id new_org_id old_sponsored_by_id new_sponsored_by_id : Option ℕ)
    (before after : List OwnedLink) : Type 0 where
  pub organizations_moved :
      (id : ℕ)
      → count_if (in_organization id) after + indicator (same_key old_org_id (some id)) * n
        ≡ count_if (in_organization id) before + indicator (same_key new_org_id (some id)) * n
  pub registrars_moved :
      (table : Table OrganizationRow) (id : ℕ)
      → count_if (under_registrar table id) after
          + indicator (same_key (registrar_of table old_org_id) (some id)) * n
        ≡ count_if (under_registrar table id) before
          + indicator (same_key (registrar_of table new_org_id) (some id)) * n
  pub sponsors_moved :
      (id : ℕ)
      → count_if (sponsored_by id) after + indicator (same_key old_sponsored_by_id (some id)) * n
        ≡ count_if (sponsored_by id) before + indicator (same_key new_sponsored_by_id (some id)) * n

-- A count that was right before is right after a transfer of as many links as have moved.
pub balance_of_counts :
    (old_id new_id : Option ℕ) (n id count count' row row' : ℕ)
    → row ≡ count
    → count' + indicator (same_key old_id (some id)) * n
      ≡ count + indicator (same_key new_id (some id)) * n
    → ((same_key old_id new_id ≡ false → same_key old_id (some id) ≡ true → n ≤ row)
        → row' + indicator (same_key old_id (some id)) * n
          ≡ row + indicator (same_key new_id (some id)) * n)
    → row' ≡ count'
balance_of_counts none none n id count count' row row' e m b = ground arith
balance_of_counts none (some k) n id count count' row row' e m b = ground arith
balance_of_counts (some j) none n id count count' row row' e m b = ground arith
balance_of_counts (some j) (some k) n id count count' row row' e m b = ground arith

-- The adjustment as three transfers, whatever its two guards do.
module _ (n : ℕ) (o o' p p' : Option ℕ) (s : Counts) where
  abbrev moved_organizations : Table OrganizationRow
  moved_organizations = transfer organization_count o o' n s.organizations

  abbrev moved_registrars : Table RegistrarRow
  moved_registrars = transfer sponsored_count p p' n (
      transfer registrar_count (registrar_of moved_organizations o)
        (registrar_of moved_organizations o') n s.registrars)

  abbrev transferred : Counts
  transferred = record s { organizations = moved_organizations; registrars = moved_registrars }

  adjust_none : (n == 0) ≡ true → adjust_owner_link_counts n o o' p p' s ≡ transferred
  unfolding adjust_owner_link_counts
  adjust_none h = rw (
    h,
    transfer_same organization_count o o' n s.organizations (rw h),
    transfer_same registrar_count (registrar_of s.organizations o) (registrar_of s.organizations o')
        n s.registrars (rw h),
    transfer_same sponsored_count p p' n s.registrars (rw h),
  )

  adjust_same :
      (n == 0) ≡ false → same_key o o' ≡ true → adjust_owner_link_counts n o o' p p' s ≡ transferred
  unfolding adjust_owner_link_counts
  adjust_same h e = rw (
    h,
    e,
    transfer_same organization_count o o' n s.organizations (rw (h, e)),
    transfer_same registrar_count (registrar_of s.organizations o) (registrar_of s.organizations o')
        n s.registrars
        (rw (h, same_key-eq o o' e, same_key_refl (registrar_of s.organizations o'))),
  )

  adjust_transfers : adjust_owner_link_counts n o o' p p' s ≡ transferred
  unfolding adjust_owner_link_counts
  adjust_transfers = elim (Bool-cases (n == 0)) [
    | inl none_moved ↦ adjust_none none_moved
    | inr some_moved ↦ elim (Bool-cases (same_key o o')) [
      | inl same ↦ adjust_same some_moved same
      | inr different ↦ rw (some_moved, different)
    ]
  ]

module _ {n : ℕ} {o o' p p' : Option ℕ} {before after : List OwnedLink}
    (moves : IsRebalanced n o o' p p' before after) (s : Counts)
    (counted : CountsOwners before s.organizations s.registrars) where
  organization_recounted :
      (id : ℕ) (row : OrganizationRow)
      → moved_organizations n o o' p p' s id ≡ some row
      → row.user_deleted ≡ false
      → row.link_count ≡ count_if (in_organization id) after
  organization_recounted id row e shown =
      let (old, found, same) =
        transfer_row_of organization_count o o' n s.organizations id row
          counted.no_organization_zero e in
      let live : old.user_deleted ≡ false = cc (transfer_row_deleted o o' n id old) in
      balance_of_counts o o' n id (count_if (in_organization id) before)
        (count_if (in_organization id) after) old.link_count row.link_count
        (counted.organization_counted id old found live) (moves.organizations_moved id)
        (λ enough.
          subst
            (λ (r : OrganizationRow).
              r.link_count + indicator (same_key o (some id)) * n
              ≡ old.link_count + indicator (same_key o' (some id)) * n)
            (sym same) (organization_balance o o' n id old live enough))

  -- A registrar's row is transferred once for its organizations' links, and once for sponsored links.
  registrar_source :
      (id : ℕ) (row : RegistrarRow)
      → moved_registrars n o o' p p' s id ≡ some row
      → (old : RegistrarRow) × (s.registrars id ≡ some old)
        × (row
            ≡ transfer_row sponsored_count p p' n id (
                transfer_row registrar_count
                  (registrar_of (moved_organizations n o o' p p' s) o)
                  (registrar_of (moved_organizations n o o' p p' s) o')
                  n
                  id
                  old))
  registrar_source id row e =
      let r = registrar_of (moved_organizations n o o' p p' s) o in
      let r' = registrar_of (moved_organizations n o o' p p' s) o' in
      let (mid, found, same) =
        transfer_row_of sponsored_count p p' n (transfer registrar_count r r' n s.registrars) id row
          (transfer-none registrar_count r r' n s.registrars 0 counted.no_registrar_zero) e in
      let (old, found', same') =
        transfer_row_of registrar_count r r' n s.registrars id mid counted.no_registrar_zero
          found in
      (old, found', cc)

  registrars_kept :
      (key : Option ℕ)
      → registrar_of (moved_organizations n o o' p p' s) key ≡ registrar_of s.organizations key
  registrars_kept key =
      registrar_of-transfer o o' n s.organizations key counted.no_organization_zero

  under_registrar_kept :
      (id : ℕ)
      → under_registrar (moved_organizations n o o' p p' s) id ≡ under_registrar s.organizations id
  under_registrar_kept id =
      fun_ext λ link. ap (λ key. same_key key (some id)) (registrars_kept link.organization_id)

  registrar_recounted :
      (id : ℕ) (row : RegistrarRow)
      → moved_registrars n o o' p p' s id ≡ some row
      → row.link_count ≡ count_if (under_registrar (moved_organizations n o o' p p' s) id) after
  registrar_recounted id row e =
      let (old, found, same) = registrar_source id row e in
      let r = registrar_of (moved_organizations n o o' p p' s) o in
      let r' = registrar_of (moved_organizations n o o' p p' s) o' in
      let mid = transfer_row registrar_count r r' n id old in
      rw (under_registrar_kept id) (
        balance_of_counts r r' n id (count_if (under_registrar s.organizations id) before)
          (count_if (under_registrar s.organizations id) after) old.link_count row.link_count
          (counted.registrar_counted id old found)
          (rw (registrars_kept o, registrars_kept o') (moves.registrars_moved s.organizations id))
          (λ enough.
            rw (ap (λ (x : RegistrarRow). x.link_count) same, transfer_row_registrar p p' n id mid)
              (registrar_balance r r' n id old enough)))

  sponsored_recounted :
      (id : ℕ) (row : RegistrarRow)
      → moved_registrars n o o' p p' s id ≡ some row
      → row.sponsored_link_count ≡ count_if (sponsored_by id) after
  sponsored_recounted id row e =
      let (old, found, same) = registrar_source id row e in
      let r = registrar_of (moved_organizations n o o' p p' s) o in
      let r' = registrar_of (moved_organizations n o o' p p' s) o' in
      let mid = transfer_row registrar_count r r' n id old in
      let kept = transfer_row_sponsored r r' n id old in
      balance_of_counts p p' n id (count_if (sponsored_by id) before)
        (count_if (sponsored_by id) after) mid.sponsored_link_count row.sponsored_link_count
        (kept ∙ counted.sponsored_counted id old found) (moves.sponsors_moved id)
        (λ enough.
          rw (ap (λ (x : RegistrarRow). x.sponsored_link_count) same)
            (sponsored_balance p p' n id mid enough))

  pub moved-CountsOwners :
      CountsOwners after (moved_organizations n o o' p p' s) (moved_registrars n o o' p p' s)
  moved-CountsOwners = record {
    organization_counted = organization_recounted;
    registrar_counted = registrar_recounted;
    sponsored_counted = sponsored_recounted;
    no_organization_zero =
        transfer-none organization_count o o' n s.organizations 0 counted.no_organization_zero;
    no_registrar_zero =
        transfer-none sponsored_count p p' n _ 0
          (transfer-none registrar_count _ _ n s.registrars 0 counted.no_registrar_zero);
  }

  -- The adjustment keeps the owners' counts right, and does not touch the users.
  pub adjust_owner_link_counts-CountsOwners :
      let t = adjust_owner_link_counts n o o' p p' s in
      CountsOwners after t.organizations t.registrars × (t.users ≡ s.users)
  adjust_owner_link_counts-CountsOwners =
      rw (adjust_transfers n o o' p p' s) (moved-CountsOwners, refl)
