-- ===== src/LinkCounts/Registrar.antt =====
-- An organization that changes its registrar takes its links along.
use mathlib.Core.Path.{subst}
use perma.Prelude.{
  ℕ, ◌+◌, ◌*◌, ◌≡◌, refl, true, false, Option, some, List, [], ◌∷◌, arith, same_key, indicator,
  count_if, inl, inr, Bool-cases, Option-cases, ap, ◌∙◌, sym, none,
}
use perma.LinkCounts.{
  OrganizationRow, RegistrarRow, Table, Counts, OwnedLink, registrar_count, org_registrar_changed,
  update_where, save_registrar, shown_link_count, transfer,
}
use perma.LinkCounts.Census.{IsAccurate, CountsOwners, in_organization, under_registrar}
use perma.LinkCounts.Transfer.{
  transfer_row_of, transfer-none, transfer_same, registrar_balance, transfer_row_sponsored,
}
use perma.LinkCounts.Accuracy.{balance_of_counts}

module _ (org_id : ℕ) (registrar_id : Option ℕ) where
  abbrev rewritten : Table OrganizationRow → Table OrganizationRow
  rewritten = update_where org_id (λ _. true) (λ r. record r { registrar_id = registrar_id })

  -- One link under the new registrar instead of the old one, if it is the organization's.
  link_rehomed :
      (table : Table OrganizationRow) (row : OrganizationRow) (id : ℕ) (link : OwnedLink)
      → table org_id ≡ some row
      → row.user_deleted ≡ false
      → indicator (under_registrar (rewritten table) id link)
          + indicator (same_key row.registrar_id (some id))
            * indicator (in_organization org_id link)
        ≡ indicator (under_registrar table id link)
          + indicator (same_key registrar_id (some id)) * indicator (in_organization org_id link)
  link_rehomed table row id link e live = elim (Option-cases link.organization_id) [
    | inl personal ↦ rw (personal) (omega arith)
    | inr (key, owned) ↦ rw owned (elim (Option-cases (table key)) [
      | inl missing ↦ ground arith
      | inr (other, found) ↦ ground arith
    ])
  ]

  links_rehomed :
      (table : Table OrganizationRow) (row : OrganizationRow) (id : ℕ) (links : List OwnedLink)
      → table org_id ≡ some row
      → row.user_deleted ≡ false
      → count_if (under_registrar (rewritten table) id) links
          + indicator (same_key row.registrar_id (some id))
            * count_if (in_organization org_id) links
        ≡ count_if (under_registrar table id) links
          + indicator (same_key registrar_id (some id)) * count_if (in_organization org_id) links
  links_rehomed table row id [] e live = omega arith
  links_rehomed table row id (link ∷ links) e live =
      omega (arith, link_rehomed table row id link e live, links_rehomed table row id links e live)

  -- A deleted organization's links are under no registrar, before and after.
  deleted_link_kept :
      (table : Table OrganizationRow) (row : OrganizationRow) (id : ℕ) (link : OwnedLink)
      → table org_id ≡ some row
      → row.user_deleted ≡ true
      → under_registrar (rewritten table) id link ≡ under_registrar table id link
  deleted_link_kept table row id link e gone = elim (Option-cases link.organization_id) [
    | inl personal ↦ rw personal
    | inr (key, owned) ↦ rw owned (elim (Option-cases (table key)) [
      | inl missing ↦ ground arith
      | inr (other, found) ↦ ground arith
    ])
  ]

  deleted_links_kept :
      (table : Table OrganizationRow) (row : OrganizationRow) (id : ℕ) (links : List OwnedLink)
      → table org_id ≡ some row
      → row.user_deleted ≡ true
      → count_if (under_registrar (rewritten table) id) links
        ≡ count_if (under_registrar table id) links
  deleted_links_kept table row id [] e gone = refl
  deleted_links_kept table row id (link ∷ links) e gone = omega (
    arith,
    ap indicator (deleted_link_kept table row id link e gone),
    deleted_links_kept table row id links e gone,
  )

  -- The links under a registrar change by as many as `first()` reports for the organization.
  reported_rehomed :
      (table : Table OrganizationRow) (registrars : Table RegistrarRow) (row : OrganizationRow)
      (id : ℕ) (links : List OwnedLink)
      → CountsOwners links table registrars
      → table org_id ≡ some row
      → count_if (under_registrar (rewritten table) id) links
          + indicator (same_key row.registrar_id (some id)) * shown_link_count (some row)
        ≡ count_if (under_registrar table id) links
          + indicator (same_key registrar_id (some id)) * shown_link_count (some row)
  reported_rehomed table registrars row id links owners e = elim (Bool-cases row.user_deleted) [
    | inl gone ↦ rw gone (omega (arith, deleted_links_kept table row id links e gone))
    | inr live ↦
        rw (live, owners.organization_counted org_id row e live)
          (links_rehomed table row id links e live)
  ]

  rewritten_row :
      (table : Table OrganizationRow) (id : ℕ) (row : OrganizationRow)
      → rewritten table id ≡ some row
      → (old : OrganizationRow) × (table id ≡ some old)
        × (row.link_count ≡ old.link_count)
        × (row.user_deleted ≡ old.user_deleted)
  rewritten_row table id row e = elim (Option-cases (table id)) [
    | inl missing ↦ absurd (ground arith)
    | inr (old, found) ↦ (old, found, ground arith, ground arith)
  ]

  rewritten_org :
      (table : Table OrganizationRow) (row : OrganizationRow)
      → table org_id ≡ some row
      → shown_link_count (rewritten table org_id) ≡ shown_link_count (some row)
  rewritten_org table row e = ground arith

module _ (org_id : ℕ) (registrar_id : Option ℕ) (links : List OwnedLink)
    (row : OrganizationRow) where
  transferred_registrars : Table RegistrarRow → Table RegistrarRow
  transferred_registrars =
      transfer registrar_count row.registrar_id registrar_id (shown_link_count (some row))

  rehomed-CountsOwners :
      (table : Table OrganizationRow) (registrars : Table RegistrarRow)
      → table org_id ≡ some row
      → CountsOwners links table registrars
      → CountsOwners links (rewritten org_id registrar_id table) (transferred_registrars registrars)
  unfolding transferred_registrars
  rehomed-CountsOwners table registrars e owners = record {
    organization_counted = λ id after f live.
        let (old, found, same, same') = rewritten_row org_id registrar_id table id after f in
        same ∙ owners.organization_counted id old found (sym same' ∙ live);
    registrar_counted = λ id after f.
        let (old, found, same) =
          transfer_row_of registrar_count row.registrar_id registrar_id
            (shown_link_count (some row)) registrars id after owners.no_registrar_zero f in
        balance_of_counts row.registrar_id registrar_id (shown_link_count (some row)) id
          (count_if (under_registrar table id) links)
          (count_if (under_registrar (rewritten org_id registrar_id table) id) links) old.link_count
          after.link_count (owners.registrar_counted id old found)
          (reported_rehomed org_id registrar_id table registrars row id links owners e)
          (λ enough. rw (ap (λ (x : RegistrarRow). x.link_count) same) (
            registrar_balance row.registrar_id registrar_id (shown_link_count (some row)) id old
              enough));
    sponsored_counted = λ id after f.
        let (old, found, same) =
          transfer_row_of registrar_count row.registrar_id registrar_id
            (shown_link_count (some row)) registrars id after owners.no_registrar_zero f in
        ap (λ (x : RegistrarRow). x.sponsored_link_count) same
        ∙ transfer_row_sponsored row.registrar_id registrar_id (shown_link_count (some row)) id old
        ∙ owners.sponsored_counted id old found;
    no_organization_zero = ground (arith, owners.no_organization_zero);
    no_registrar_zero = transfer-none registrar_count _ _ _ registrars 0 owners.no_registrar_zero;
  }

  org_registrar_changed_lem :
      (s : Counts)
      → s.organizations org_id ≡ some row
      → org_registrar_changed org_id row.registrar_id registrar_id
          (record s { organizations = rewritten org_id registrar_id s.organizations })
        ≡ record s {
          organizations = rewritten org_id registrar_id s.organizations;
          registrars = transferred_registrars s.registrars;
        }
  unfolding org_registrar_changed transferred_registrars
  org_registrar_changed_lem s e = elim (Bool-cases (same_key row.registrar_id registrar_id)) [
    | inl same ↦ rw (
      same,
      transfer_same registrar_count row.registrar_id registrar_id (shown_link_count (some row))
          s.registrars (ground arith),
    )
    | inr different ↦ rw (different, rewritten_org org_id registrar_id s.organizations row e)
  ]

  save_registrar_found :
      (s : Counts)
      → s.organizations org_id ≡ some row
      → save_registrar org_id registrar_id s ≡ record s {
        organizations = rewritten org_id registrar_id s.organizations;
        registrars = transferred_registrars s.registrars;
      }
  unfolding save_registrar
  save_registrar_found s e = rw (e, save_registrar) (org_registrar_changed_lem s e)

save_registrar_missing :
    (org_id : ℕ) (registrar_id : Option ℕ) (s : Counts)
    → s.organizations org_id ≡ none
    → save_registrar org_id registrar_id s ≡ s
unfolding save_registrar
save_registrar_missing org_id registrar_id s e = rw (e, save_registrar)

-- If the counts are accurate, they are accurate after any organization is given to any registrar.
pub save_registrar-IsAccurate :
    (org_id : ℕ) (registrar_id : Option ℕ) (links : List OwnedLink) (s : Counts)
    → IsAccurate links s
    → IsAccurate links (save_registrar org_id registrar_id s)
save_registrar-IsAccurate org_id registrar_id links s (users, owners) =
    elim (Option-cases (s.organizations org_id)) [
      | inl missing ↦ rw (save_registrar_missing org_id registrar_id s missing) (users, owners)
      | inr (row, found) ↦
          subst (IsAccurate links)
            (sym (save_registrar_found org_id registrar_id links row s found))
            (
              users,
              rehomed-CountsOwners org_id registrar_id links row s.organizations s.registrars found
                  owners,
            )
    ]
