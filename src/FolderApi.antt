-- ===== src/FolderApi.antt =====
-- The API of folders: `FolderSerializer` of perma_web/api/serializers.py, the views of
-- perma_web/api/views/folders.py with `load_parent` of perma_web/api/utils.py, and `Folder.delete` and
-- `is_empty` of perma_web/perma/models/folder.py. Who may reach a folder is an argument.
pub mod Moves
pub mod Deletion
pub mod Names
use perma.Prelude.{
  ℕ, Bool, true, false, not, ◌&&◌, ◌||◌, Option, none, some, List, [], ◌∷◌, ◌==◌, if◌then◌else◌,
  any_of, same_key, truthy, filter_if,
}
use perma.FolderTree.{FolderRow, find, update, is_child_of, save_moved, save_new}

-- The columns of a folder that its tree does not share; a name is the number of its text.
pub record Details : Type 0 where
  pub name : ℕ
  pub is_shared_folder : Bool
  pub is_root_folder : Bool
  -- whether the folder has links
  pub has_links : Bool

pub record Tree : Type 0 where
  pub rows : List FolderRow
  pub details : ℕ → Details

-- The user of a request: the folders that `accessible_to` lets through, as a method and as a filter.
pub record Caller : Type 0 where
  pub id : ℕ
  pub may_reach : FolderRow → Bool
  pub may_list : FolderRow → Bool

-- `descends` is the tree query with the folder itself, and `sponsored_root` the sponsored root folder of
-- a folder's owner.
pub record Queries : Type 0 where
  pub descends : ℕ → ℕ → Bool
  pub sponsored_root : FolderRow → Option ℕ

pub data Refusal : Type 0 where
  forbidden not_found invalid_parent no_parent : Refusal
  top_level_renamed name_taken : Refusal
  shared_folder_moved sponsored_links_moved into_sponsored_links top_level_sponsored_moved : Refusal
  personal_links_moved into_itself into_descendant : Refusal
  top_level_deleted not_empty : Refusal

pub data Reply : Type 0 where
  refused : Refusal → Reply
  saved : Tree → Reply

-- One of the validations: the rest, if the test does not refuse.
abbrev pub refuse_if : Bool → Refusal → Option Refusal → Option Refusal
refuse_if true refusal rest = some refusal
refuse_if false refusal rest = rest

unfoldable pub validate_parent : Queries → Details → FolderRow → FolderRow → Option Refusal
validate_parent queries details folder parent =
    refuse_if details.is_shared_folder shared_folder_moved (
      refuse_if folder.is_sponsored_root_folder sponsored_links_moved (
        refuse_if parent.is_sponsored_root_folder into_sponsored_links (
          refuse_if
            (truthy folder.sponsored_by_id
              && same_key folder.parent_id (queries.sponsored_root folder))
            top_level_sponsored_moved
            (refuse_if details.is_root_folder personal_links_moved (
              refuse_if (folder.id == parent.id) into_itself
                (refuse_if (queries.descends folder.id parent.id) into_descendant none))))))

abbrev pub is_sponsored_root : Option FolderRow → Bool
is_sponsored_root none = false
is_sponsored_root (some parent) = parent.is_sponsored_root_folder

abbrev pub parent_row : Option ℕ → List FolderRow → Option FolderRow
parent_row none rows = none
parent_row (some parent_id) rows = find parent_id rows

unfoldable pub validate_name : Tree → FolderRow → Option Refusal
validate_name tree folder =
    let details = tree.details folder.id in
    refuse_if
      (details.is_root_folder
        || details.is_shared_folder
        || folder.is_sponsored_root_folder
        || is_sponsored_root (parent_row folder.parent_id tree.rows))
      top_level_renamed none

-- The query for the folders with a name at a location.
abbrev pub is_named_at : ℕ → ℕ → Tree → FolderRow → Bool
is_named_at parent_id name tree row =
    is_child_of parent_id row && (tree.details row.id).name == name

-- `validate`; `folder_id` is the folder that is updated, if there is one.
unfoldable pub validate : Option ℕ → Option ℕ → ℕ → Tree → Option Refusal
validate folder_id none name tree = none
validate folder_id (some parent_id) name tree =
    refuse_if
      (any_of (λ row. is_named_at parent_id name tree row && not (same_key (some row.id) folder_id))
        tree.rows)
      name_taken none

abbrev pub or_else_refuse : Option Refusal → Reply → Reply
or_else_refuse none reply = reply
or_else_refuse (some refusal) reply = refused refusal

abbrev pub saved_or_none : (ℕ → Details) → Option (List FolderRow) → Reply
saved_or_none details none = refused invalid_parent
saved_or_none details (some rows) = saved (record { rows = rows; details = details })

-- `Folder.save` with the validated parent.
abbrev pub save_parent : Queries → FolderRow → FolderRow → Tree → Reply
save_parent queries folder parent tree =
    if same_key folder.parent_id (some parent.id)
    then saved tree
    else saved_or_none tree.details (save_moved queries.descends folder parent.id tree.rows)

-- The field `parent`: its key is looked up among the folders that the caller may list.
abbrev pub update_parent : Queries → Caller → FolderRow → Option FolderRow → Tree → Reply
update_parent queries caller folder none tree = refused invalid_parent
update_parent queries caller folder (some parent) tree =
    if caller.may_list parent
    then or_else_refuse (validate_parent queries (tree.details folder.id) folder parent)
        (save_parent queries folder parent tree)
    else refused invalid_parent

abbrev pub update_found : Queries → Caller → ℕ → Option FolderRow → Tree → Reply
update_found queries caller parent_id none tree = refused not_found
update_found queries caller parent_id (some folder) tree =
    if caller.may_reach folder
    then update_parent queries caller folder (find parent_id tree.rows) tree
    else refused forbidden

-- `load_parent`
abbrev pub load_parent : Caller → Option FolderRow → Reply → Reply
load_parent caller none reply = refused not_found
load_parent caller (some parent) reply =
    if caller.may_reach parent then reply else refused forbidden

-- PUT of a folder into a parent.
unfoldable pub put : Queries → Caller → ℕ → ℕ → Tree → Reply
put queries caller parent_id folder_id tree =
    load_parent caller (find parent_id tree.rows)
      (update_found queries caller parent_id (find folder_id tree.rows) tree)

abbrev pub set_name : ℕ → ℕ → Tree → Tree
set_name folder_id name tree = record tree {
  details =
      λ id. if id == folder_id then record (tree.details id) { name = name } else tree.details id;
}

abbrev pub rename_found : Caller → ℕ → Option FolderRow → Tree → Reply
rename_found caller name none tree = refused not_found
rename_found caller name (some folder) tree =
    if caller.may_reach folder
    then or_else_refuse (validate_name tree folder) (
        or_else_refuse (validate (some folder.id) folder.parent_id name tree)
          (saved (set_name folder.id name tree)))
    else refused forbidden

-- PATCH of a folder's name.
unfoldable pub patch_name : Caller → ℕ → ℕ → Tree → Reply
patch_name caller folder_id name tree = rename_found caller name (find folder_id tree.rows) tree

abbrev pub new_folder : ℕ → ℕ → Caller → FolderRow
new_folder id parent_id caller = record {
  id = id;
  parent_id = some parent_id;
  tree_root_id = none;
  read_only = false;
  owned_by_id = none;
  organization_id = none;
  sponsored_by_id = none;
  created_by_id = some caller.id;
  is_sponsored_root_folder = false;
  cached_has_children = false;
}

abbrev pub named : ℕ → ℕ → (ℕ → Details) → ℕ → Details
named new_id name details id =
    if id == new_id
    then record { name = name; is_shared_folder = false; is_root_folder = false; has_links = false }
    else details id

abbrev pub create_below : Caller → ℕ → ℕ → Option FolderRow → Tree → Reply
create_below caller new_id name none tree = refused invalid_parent
create_below caller new_id name (some parent) tree =
    if caller.may_list parent
    then or_else_refuse (validate none (some parent.id) name tree) (
        saved_or_none (named new_id name tree.details)
          (save_new (new_folder new_id parent.id caller) tree.rows))
    else refused invalid_parent

-- POST of a new folder, whose id the database chooses; `parent` is a required field.
unfoldable pub post : Caller → ℕ → ℕ → Option ℕ → Tree → Reply
post caller new_id name none tree = refused no_parent
post caller new_id name (some parent_id) tree =
    create_below caller new_id name (find parent_id tree.rows) tree

-- `Folder.delete`: the row goes, and the flag of its parent is computed again.
abbrev pub other_rows : ℕ → List FolderRow → List FolderRow
other_rows id = filter_if (λ (row : FolderRow). not (row.id == id))

abbrev pub recount : ℕ → List FolderRow → FolderRow → FolderRow
recount parent_id rows row = record row {
  cached_has_children =
      if row.id == parent_id then any_of (is_child_of parent_id) rows else row.cached_has_children;
}

abbrev pub recount_if_any : Option ℕ → List FolderRow → List FolderRow
recount_if_any none rows = rows
recount_if_any (some parent_id) rows = update (recount parent_id rows) rows

unfoldable pub delete_row : FolderRow → List FolderRow → List FolderRow
delete_row folder rows = recount_if_any folder.parent_id (other_rows folder.id rows)

unfoldable pub is_empty : FolderRow → Tree → Bool
is_empty folder tree =
    not (any_of (is_child_of folder.id) tree.rows) && not (tree.details folder.id).has_links

abbrev pub delete_found : Caller → Option FolderRow → Tree → Reply
delete_found caller none tree = refused not_found
delete_found caller (some folder) tree =
    if caller.may_reach folder
    then or_else_refuse
        (refuse_if
          ((tree.details folder.id).is_shared_folder || (tree.details folder.id).is_root_folder)
          top_level_deleted (refuse_if (not (is_empty folder tree)) not_empty none))
        (saved (record tree { rows = delete_row folder tree.rows }))
    else refused forbidden

-- DELETE of a folder.
unfoldable pub delete : Caller → ℕ → Tree → Reply
delete caller folder_id tree = delete_found caller (find folder_id tree.rows) tree
