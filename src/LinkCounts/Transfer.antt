-- ===== src/LinkCounts/Transfer.antt =====
-- What `_transfer` does to one row, and the balance of the row's count.
use perma.Prelude.{
  ℕ, zero, suc, ◌+◌, ◌-◌, ◌*◌, ◌≤◌, ◌≡◌, true, false, ◌&&◌, ◌||◌, Option, none, some, arith, leb,
  ◌==◌, if◌then◌else◌, same_key, indicator, Option-cases, inl, inr, refl,
}
use perma.LinkCounts.{
  registrar_of, OrganizationRow, RegistrarRow, Table, Column, organization_count, registrar_count,
  sponsored_count, transfer,
}

module _ {Row : Type 0} (column : Column Row) (old_id new_id : Option ℕ) (num_links id : ℕ) where
  abbrev pub take_from : Row → Row
  take_from row =
      if same_key old_id (some id) && (column.shown row && leb num_links (column.read row))
      then column.write (column.read row - num_links) row
      else row

  abbrev pub give_to : Row → Row
  give_to row =
      if same_key new_id (some id) && column.shown row
      then column.write (column.read row + num_links) row
      else row

  -- The row of key `id` after a transfer.
  abbrev pub transfer_row : Row → Row
  transfer_row row =
      if num_links == 0 || same_key old_id new_id then row else give_to (take_from row)

module _ {Row : Type 0} (column : Column Row) where
  pub transfer-some :
      (old_id new_id : Option ℕ) (num_links : ℕ) (table : Table Row) (id : ℕ) (row : Row)
      → table 0 ≡ none
      → table id ≡ some row
      → transfer column old_id new_id num_links table id
        ≡ some (transfer_row column old_id new_id num_links id row)
  unfolding transfer
  transfer-some none none n table id row z e = ground arith
  transfer-some none (some zero) n table id row z e = ground arith
  transfer-some none (some (suc b)) n table id row z e = ground arith
  transfer-some (some zero) none n table id row z e = ground arith
  transfer-some (some zero) (some zero) n table id row z e = ground arith
  transfer-some (some zero) (some (suc b)) n table id row z e = ground arith
  transfer-some (some (suc a)) none n table id row z e = ground arith
  transfer-some (some (suc a)) (some zero) n table id row z e = ground arith
  transfer-some (some (suc a)) (some (suc b)) n table id row z e = ground arith

  -- A transfer adds no row.
  pub transfer-none :
      (old_id new_id : Option ℕ) (num_links : ℕ) (table : Table Row) (id : ℕ)
      → table id ≡ none
      → transfer column old_id new_id num_links table id ≡ none
  unfolding transfer
  transfer-none none b n table id e = ground arith
  transfer-none (some a) b n table id e = ground arith

-- The balance of a row's count: what the row loses as the old owner, and gains as the new one.
pub organization_balance :
    (old_id new_id : Option ℕ) (n id : ℕ) (row : OrganizationRow)
    → row.user_deleted ≡ false
    → (same_key old_id new_id ≡ false → same_key old_id (some id) ≡ true → n ≤ row.link_count)
    → (transfer_row organization_count old_id new_id n id row).link_count
        + indicator (same_key old_id (some id)) * n
      ≡ row.link_count + indicator (same_key new_id (some id)) * n
organization_balance none none n id row d g = ground arith
organization_balance none (some b) n id row d g = ground arith
organization_balance (some a) none n id row d g = ground arith
organization_balance (some a) (some b) n id row d g = ground arith

pub registrar_balance :
    (old_id new_id : Option ℕ) (n id : ℕ) (row : RegistrarRow)
    → (same_key old_id new_id ≡ false → same_key old_id (some id) ≡ true → n ≤ row.link_count)
    → (transfer_row registrar_count old_id new_id n id row).link_count
        + indicator (same_key old_id (some id)) * n
      ≡ row.link_count + indicator (same_key new_id (some id)) * n
registrar_balance none none n id row g = ground arith
registrar_balance none (some b) n id row g = ground arith
registrar_balance (some a) none n id row g = ground arith
registrar_balance (some a) (some b) n id row g = ground arith

pub sponsored_balance :
    (old_id new_id : Option ℕ) (n id : ℕ) (row : RegistrarRow)
    → (same_key old_id new_id ≡ false
        → same_key old_id (some id) ≡ true
        → n ≤ row.sponsored_link_count)
    → (transfer_row sponsored_count old_id new_id n id row).sponsored_link_count
        + indicator (same_key old_id (some id)) * n
      ≡ row.sponsored_link_count + indicator (same_key new_id (some id)) * n
sponsored_balance none none n id row g = ground arith
sponsored_balance none (some b) n id row g = ground arith
sponsored_balance (some a) none n id row g = ground arith
sponsored_balance (some a) (some b) n id row g = ground arith

-- Each row after a transfer is a row before it, transferred.
pub transfer_row_of :
    {Row : Type 0} (column : Column Row) (old_id new_id : Option ℕ) (num_links : ℕ)
    (table : Table Row) (id : ℕ) (after : Row)
    → table 0 ≡ none
    → transfer column old_id new_id num_links table id ≡ some after
    → (before : Row) × (table id ≡ some before)
      × (after ≡ transfer_row column old_id new_id num_links id before)
transfer_row_of column old_id new_id n table id after z e = elim (Option-cases (table id)) [
  | inl missing ↦ cc (transfer-none column old_id new_id n table id missing)
  | inr (before, found) ↦
      (before, found, cc (transfer-some column old_id new_id n table id before z found))
]

-- Between equal owners, or of no links, a transfer does nothing.
pub transfer_same :
    {Row : Type 0} (column : Column Row) (old_id new_id : Option ℕ) (num_links : ℕ)
    (table : Table Row)
    → (num_links == 0 || same_key old_id new_id) ≡ true
    → transfer column old_id new_id num_links table ≡ table
unfolding transfer
transfer_same column old_id new_id n table h = rw h

-- The organizations' registrars and deletion marks do not move.
pub registrar_of-transfer :
    (old_id new_id : Option ℕ) (n : ℕ) (table : Table OrganizationRow) (id : Option ℕ)
    → table 0 ≡ none
    → registrar_of (transfer organization_count old_id new_id n table) id ≡ registrar_of table id
registrar_of-transfer old_id new_id n table none z = refl
registrar_of-transfer old_id new_id n table (some id) z = elim (Option-cases (table id)) [
  | inl missing ↦ ground (arith, transfer-none organization_count old_id new_id n table id missing)
  | inr (row, found) ↦
      ground (arith, transfer-some organization_count old_id new_id n table id row z found)
]

pub transfer_row_deleted :
    (old_id new_id : Option ℕ) (n id : ℕ) (row : OrganizationRow)
    → (transfer_row organization_count old_id new_id n id row).user_deleted ≡ row.user_deleted
transfer_row_deleted old_id new_id n id row = ground arith

pub transfer_row_sponsored :
    (old_id new_id : Option ℕ) (n id : ℕ) (row : RegistrarRow)
    → (transfer_row registrar_count old_id new_id n id row).sponsored_link_count
      ≡ row.sponsored_link_count
transfer_row_sponsored old_id new_id n id row = ground arith

pub transfer_row_registrar :
    (old_id new_id : Option ℕ) (n id : ℕ) (row : RegistrarRow)
    → (transfer_row sponsored_count old_id new_id n id row).link_count ≡ row.link_count
transfer_row_registrar old_id new_id n id row = ground arith
