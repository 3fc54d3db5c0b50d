-- ===== src/LinkCounts.antt =====
-- The cached link counts of users, organizations and registrars: perma_web/perma/models/link_counts.py.
-- A table is a function from primary keys to rows; `UPDATE` on a key with no row changes nothing.
pub mod Census
pub mod Transfer
pub mod Accuracy
pub mod Relocation
pub mod Registrar
pub mod Moves
use perma.Prelude.{
  ℕ, ◌+◌, ◌-◌, Bool, true, false, not, ◌&&◌, ◌||◌, Option, none, some, leb, ◌==◌, if◌then◌else◌,
  same_key, truthy, is_some,
}

-- The columns of `LinkUser` that the counts touch.
pub record UserRow : Type 0 where
  pub link_count : ℕ

-- The columns of `Organization`; `user_deleted` hides the row from the default manager.
pub record OrganizationRow : Type 0 where
  pub registrar_id : Option ℕ
  pub link_count : ℕ
  pub user_deleted : Bool

-- The columns of `Registrar`.
pub record RegistrarRow : Type 0 where
  pub link_count : ℕ
  pub sponsored_link_count : ℕ

abbrev pub Table : Type 0 → Type 0
Table Row = ℕ → Option Row

pub record Counts : Type 0 where
  pub users : Table UserRow
  pub organizations : Table OrganizationRow
  pub registrars : Table RegistrarRow

-- `queryset.filter(pk=id, <test>).update(<change>)`
abbrev pub update_where : {Row : Type 0} → ℕ → (Row → Bool) → (Row → Row) → Table Row → Table Row
update_where id test change table key = elim (table key) [
  | none ↦ none
  | some row ↦ some (if key == id && test row then change row else row)
]

-- A count column, and which rows the queryset of its model shows.
pub record Column (Row : Type 0) : Type 0 where
  pub read : Row → ℕ
  pub write : ℕ → Row → Row
  pub shown : Row → Bool

abbrev pub organization_count : Column OrganizationRow
organization_count = record {
  read = λ row. row.link_count;
  write = λ n row. record row { link_count = n };
  shown = λ row. not row.user_deleted;
}

abbrev pub registrar_count : Column RegistrarRow
registrar_count = record {
  read = λ row. row.link_count;
  write = λ n row. record row { link_count = n };
  shown = λ row. true;
}

abbrev pub sponsored_count : Column RegistrarRow
sponsored_count = record {
  read = λ row. row.sponsored_link_count;
  write = λ n row. record row { sponsored_link_count = n };
  shown = λ row. true;
}

-- A nullable key's number; only read where the key is truthy.
abbrev pub key_or_zero : Option ℕ → ℕ
key_or_zero none = 0
key_or_zero (some id) = id

-- The subtracting and the adding `update` of `_transfer`.
abbrev pub subtract : {Row : Type 0} → Column Row → ℕ → ℕ → Table Row → Table Row
subtract column id num_links =
    update_where id (λ row. column.shown row && leb num_links (column.read row))
      (λ row. column.write (column.read row - num_links) row)

abbrev pub add : {Row : Type 0} → Column Row → ℕ → ℕ → Table Row → Table Row
add column id num_links =
    update_where id column.shown (λ row. column.write (column.read row + num_links) row)

-- `_transfer`
unfoldable pub transfer :
    {Row : Type 0} → Column Row → Option ℕ → Option ℕ → ℕ → Table Row → Table Row
transfer column old_id new_id num_links table =
    if num_links == 0 || same_key old_id new_id
    then table
    else let reduced =
        if truthy old_id then subtract column (key_or_zero old_id) num_links table else table in
      if truthy new_id then add column (key_or_zero new_id) num_links reduced else reduced

-- `registrar_ids_by_org.get(org_id)`: the registrar of an organization that is not deleted.
abbrev pub registrar_of : Table OrganizationRow → Option ℕ → Option ℕ
registrar_of table none = none
registrar_of table (some id) = elim (table id) [
  | none ↦ none
  | some row ↦ if row.user_deleted then none else row.registrar_id
]

-- `adjust_owner_link_counts`
unfoldable pub adjust_owner_link_counts :
    ℕ → Option ℕ → Option ℕ → Option ℕ → Option ℕ → Counts → Counts
adjust_owner_link_counts num_links old_org_id new_org_id old_sponsored_by_id new_sponsored_by_id s =
    let organizations =
      if same_key old_org_id new_org_id
      then s.organizations
      else transfer organization_count old_org_id new_org_id num_links s.organizations in
    let registrars =
      if same_key old_org_id new_org_id
      then s.registrars
      else transfer registrar_count (registrar_of organizations old_org_id)
          (registrar_of organizations new_org_id) num_links s.registrars in
    if num_links == 0 then s else record s {
      organizations = organizations;
      registrars =
          transfer sponsored_count old_sponsored_by_id new_sponsored_by_id num_links registrars;
    }

-- `Organization.objects.filter(pk=org_id).values_list('link_count').first()`; with no row, `_transfer`
-- gets `None` and does nothing, as it does for 0.
abbrev pub shown_link_count : Option OrganizationRow → ℕ
shown_link_count none = 0
shown_link_count (some row) = if row.user_deleted then 0 else row.link_count

-- `org_registrar_changed`
unfoldable pub org_registrar_changed : ℕ → Option ℕ → Option ℕ → Counts → Counts
org_registrar_changed org_id old_registrar_id new_registrar_id s =
    if same_key old_registrar_id new_registrar_id then s else record s {
      registrars =
          transfer registrar_count old_registrar_id new_registrar_id
            (shown_link_count (s.organizations org_id)) s.registrars;
    }

-- `Organization.save` where the registrar changes: the row is written first.
unfoldable pub save_registrar : ℕ → Option ℕ → Counts → Counts
save_registrar org_id registrar_id s = elim (s.organizations org_id) [
  | none ↦ s
  | some row ↦ org_registrar_changed org_id row.registrar_id registrar_id (record s {
    organizations =
        update_where org_id (λ _. true) (λ r. record r { registrar_id = registrar_id })
          s.organizations;
  })
]

-- `adjust_user_link_count(user_id, 1)` and `adjust_user_link_count(user_id, -1)`, the two calls there
-- are. `filter(pk=None)` matches no row.
unfoldable pub increment_user_link_count : Option ℕ → Table UserRow → Table UserRow
increment_user_link_count none users = users
increment_user_link_count (some id) users =
    update_where id (λ row. true) (λ row. record row { link_count = row.link_count + 1 }) users

unfoldable pub decrement_user_link_count : Option ℕ → Table UserRow → Table UserRow
decrement_user_link_count none users = users
decrement_user_link_count (some id) users =
    update_where id (λ row. leb 1 row.link_count)
      (λ row. record row { link_count = row.link_count - 1 }) users

-- The columns of a link that the counts read; `sponsored_by_id` is what `_sponsored_by_id()` finds
-- among the link's folders.
pub record OwnedLink : Type 0 where
  pub created_by_id : Option ℕ
  pub organization_id : Option ℕ
  pub sponsored_by_id : Option ℕ

unfoldable pub link_created : OwnedLink → Counts → Counts
link_created link s =
    adjust_owner_link_counts 1 none link.organization_id none none
      (record s { users = increment_user_link_count link.created_by_id s.users })

unfoldable pub link_deleted : OwnedLink → Counts → Counts
link_deleted link s =
    adjust_owner_link_counts 1 link.organization_id none link.sponsored_by_id none
      (record s { users = decrement_user_link_count link.created_by_id s.users })

-- A link that stands in one folder, with what `move_to_folder_for_user` and `safe_delete` read of it.
pub record StoredLink : Type 0 where
  pub owned : OwnedLink
  pub bonus_link : Bool
  pub user_deleted : Bool

-- The owners of the folder that a link is moved to.
pub record FolderOwners : Type 0 where
  pub organization_id : Option ℕ
  pub sponsored_by_id : Option ℕ

-- A link, the `bonus_links` of the user who acts on it, and the counts.
pub record Acting : Type 0 where
  pub link : StoredLink
  pub bonus_links : Option ℕ
  pub counts : Counts

-- `F('bonus_links') + 1`, which leaves a null null.
abbrev pub one_more : Option ℕ → Option ℕ
one_more none = none
one_more (some n) = some (n + 1)

abbrev pub gives_back : FolderOwners → StoredLink → Bool
gives_back folder link =
    link.bonus_link && (is_some folder.organization_id || is_some folder.sponsored_by_id)

-- `move_to_folder_for_user`
unfoldable pub move_to_folder_for_user : FolderOwners → Acting → Acting
move_to_folder_for_user folder a =
    let link = a.link in
    record {
      link = record link {
        owned = record (link.owned) {
          organization_id = folder.organization_id;
          sponsored_by_id = folder.sponsored_by_id;
        };
        bonus_link = if gives_back folder link then false else link.bonus_link;
      };
      bonus_links = if gives_back folder link then one_more a.bonus_links else a.bonus_links;
      counts =
          if link.user_deleted
          then a.counts
          else adjust_owner_link_counts 1 link.owned.organization_id folder.organization_id
              link.owned.sponsored_by_id folder.sponsored_by_id a.counts;
    }

-- `safe_delete`
unfoldable pub safe_delete : Acting → Acting
safe_delete a = if a.link.user_deleted then a else record a {
  link = record (a.link) { user_deleted = true };
  counts = link_deleted a.link.owned a.counts;
}
