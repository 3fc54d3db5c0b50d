-- ===== src/FolderTree.antt =====
-- The folder tree: `save` of a folder (perma_web/perma/models/folder.py), which copies the fields that a
-- tree shares from the parent, to a new folder and to all of a moved one's descendants. The tree queries
-- (django-tree-queries) are a parameter; `cached_path`, which they alone compute, is left out.
pub mod Shared
pub mod Moved
pub mod Forest
pub mod Added
use perma.Prelude.{
  ℕ, Bool, true, false, not, ◌&&◌, Option, none, some, List, [], ◌∷◌, ◌==◌, if◌then◌else◌, any_of,
  same_key, is_none,
}

pub record FolderRow : Type 0 where
  pub id : ℕ
  pub parent_id : Option ℕ
  pub tree_root_id : Option ℕ
  pub read_only : Bool
  pub owned_by_id : Option ℕ
  pub organization_id : Option ℕ
  pub sponsored_by_id : Option ℕ
  pub created_by_id : Option ℕ
  pub is_sponsored_root_folder : Bool
  pub cached_has_children : Bool

abbrev pub find : ℕ → List FolderRow → Option FolderRow
find id [] = none
find id (row ∷ rows) = let rest = find id rows in if row.id == id then some row else rest

-- `Folder.objects.filter(...).update(...)`
abbrev pub update : (FolderRow → FolderRow) → List FolderRow → List FolderRow
update f [] = []
update f (row ∷ rows) = f row ∷ update f rows

-- `get_shared_fields_from_parent`, written to `row`; `sponsored_by_id` is that of the folder being saved.
unfoldable pub share_fields : FolderRow → Option ℕ → FolderRow → FolderRow
share_fields parent sponsored_by_id row = record row {
  tree_root_id = parent.tree_root_id;
  read_only = parent.read_only;
  owned_by_id = parent.owned_by_id;
  organization_id = parent.organization_id;
  sponsored_by_id =
      if parent.is_sponsored_root_folder then sponsored_by_id else parent.sponsored_by_id;
}

-- `set_owner_for_personal_and_sponsored_folders`
unfoldable pub set_owner : FolderRow → FolderRow
set_owner row =
    if not (is_none row.created_by_id) && is_none row.owned_by_id && is_none row.organization_id
    then record row { owned_by_id = row.created_by_id }
    else row

-- `get_own_subtree_ids`, as a test; `descends` is `get_descendants(include_self=True)`.
abbrev pub in_own_subtree : (ℕ → ℕ → Bool) → FolderRow → ℕ → Bool
in_own_subtree descends folder id =
    if folder.cached_has_children then descends folder.id id else id == folder.id

abbrev pub is_child_of : ℕ → FolderRow → Bool
is_child_of id row = same_key row.parent_id (some id)

-- `update_parents_cached_has_children` for the folder that is saved.
abbrev pub mark_parent : ℕ → FolderRow → FolderRow
mark_parent parent_id row = record row {
  cached_has_children = if row.id == parent_id then true else row.cached_has_children;
}

abbrev pub has_other_child : ℕ → ℕ → List FolderRow → Bool
has_other_child folder_id previous =
    any_of (λ row. is_child_of previous row && not (row.id == folder_id))

abbrev pub mark_previous : ℕ → ℕ → List FolderRow → FolderRow → FolderRow
mark_previous folder_id previous rows row = record row {
  cached_has_children =
      if row.id == previous
      then has_other_child folder_id previous rows
      else row.cached_has_children;
}

abbrev pub mark_previous_if_any : ℕ → Option ℕ → List FolderRow → List FolderRow
mark_previous_if_any folder_id none rows = rows
mark_previous_if_any folder_id (some previous) rows =
    update (mark_previous folder_id previous rows) rows

-- The branches for a new folder, whose id the database has chosen: none if the parent does not exist.
abbrev pub insert_below : FolderRow → List FolderRow → Option FolderRow → Option (List FolderRow)
insert_below folder rows none = none
insert_below folder rows (some parent) = some (
    update (mark_parent parent.id)
      (set_owner (share_fields parent folder.sponsored_by_id folder) ∷ rows))

abbrev pub insert_at : Option ℕ → FolderRow → List FolderRow → Option (List FolderRow)
insert_at none folder rows =
    some (record (set_owner folder) { tree_root_id = some folder.id } ∷ rows)
insert_at (some parent_id) folder rows = insert_below folder rows (find parent_id rows)

unfoldable pub save_new : FolderRow → List FolderRow → Option (List FolderRow)
save_new folder = insert_at folder.parent_id folder

-- What moving `folder` does to one row: its own parent, and the shared fields of its subtree.
abbrev pub placed : FolderRow → FolderRow → FolderRow → FolderRow
placed folder parent row = record row {
  parent_id = if row.id == folder.id then some parent.id else row.parent_id;
}

abbrev pub move_row : (ℕ → Bool) → FolderRow → FolderRow → FolderRow → FolderRow
move_row in_subtree folder parent row =
    if in_subtree row.id
    then share_fields parent folder.sponsored_by_id (placed folder parent row)
    else placed folder parent row

-- The branch for a folder whose parent has changed; `folder` is its row before the move.
unfoldable pub save_moved :
    (ℕ → ℕ → Bool) → FolderRow → ℕ → List FolderRow → Option (List FolderRow)
save_moved descends folder parent_id rows = elim (find parent_id rows) [
  | none ↦ none
  | some parent ↦
      let moved = update (move_row (in_own_subtree descends folder) folder parent) rows in
      let marked = update (mark_parent parent.id) moved in
      some (mark_previous_if_any folder.id folder.parent_id marked)
]
