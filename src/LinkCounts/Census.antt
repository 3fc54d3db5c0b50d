-- ===== src/LinkCounts/Census.antt =====
-- What the cached counts ought to be: the links themselves, counted.
use perma.Prelude.{ℕ, ◌≡◌, Bool, false, none, some, List, same_key, count_if}
use perma.LinkCounts.{
  UserRow, OrganizationRow, RegistrarRow, Table, Counts, OwnedLink, registrar_of,
}

abbrev pub created_by : ℕ → OwnedLink → Bool
created_by id link = same_key link.created_by_id (some id)

abbrev pub in_organization : ℕ → OwnedLink → Bool
in_organization id link = same_key link.organization_id (some id)

-- The link stands under an organization of this registrar that is not deleted.
abbrev pub under_registrar : Table OrganizationRow → ℕ → OwnedLink → Bool
under_registrar organizations id link =
    same_key (registrar_of organizations link.organization_id) (some id)

abbrev pub sponsored_by : ℕ → OwnedLink → Bool
sponsored_by id link = same_key link.sponsored_by_id (some id)

-- The cached count of each user is the number of links that the user created.
abbrev pub CountsUsers : List OwnedLink → Table UserRow → Type 0
CountsUsers links users =
    (id : ℕ) (row : UserRow) → users id ≡ some row → row.link_count ≡ count_if (created_by id) links

-- The cached counts of each registrar and of each organization that is not deleted are the numbers
-- of their links. Key 0 is never given out by the database.
pub record CountsOwners (links : List OwnedLink) (organizations : Table OrganizationRow)
    (registrars : Table RegistrarRow) : Type 0 where
  pub organization_counted :
      (id : ℕ) (row : OrganizationRow)
      → organizations id ≡ some row
      → row.user_deleted ≡ false
      → row.link_count ≡ count_if (in_organization id) links
  pub registrar_counted :
      (id : ℕ) (row : RegistrarRow)
      → registrars id ≡ some row
      → row.link_count ≡ count_if (under_registrar organizations id) links
  pub sponsored_counted :
      (id : ℕ) (row : RegistrarRow)
      → registrars id ≡ some row
      → row.sponsored_link_count ≡ count_if (sponsored_by id) links
  pub no_organization_zero : organizations 0 ≡ none
  pub no_registrar_zero : registrars 0 ≡ none

-- The caches agree with the links that are not deleted.
abbrev pub IsAccurate : List OwnedLink → Counts → Type 0
IsAccurate links s = CountsUsers links s.users × CountsOwners links s.organizations s.registrars
