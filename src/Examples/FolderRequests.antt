-- ===== src/Examples/FolderRequests.antt =====
-- A personal folder with two folders in it, and the requests of its user.
use perma.Prelude.{
  ℕ, ◌≡◌, refl, Bool, true, false, ◌||◌, Option, none, some, [], ◌∷◌, arith, ◌==◌, All,
  if◌then◌else◌, ◌+◌,
}
use perma.FolderTree.{FolderRow, save_moved, share_fields}
use perma.FolderTree.Shared.{IsConsistent}
use perma.FolderTree.Forest.{IsForest}
use perma.FolderApi.{
  Details, Tree, Caller, Queries, refused, put, delete, patch_name, name_taken, validate_parent,
  validate_name, validate,
}
use perma.FolderApi.Moves.{after, is_saved, put-IsConsistent}
use perma.FolderApi.Deletion.{HasParentIn, delete-HasParents}
use perma.FolderApi.Names.{IsNamed, patch_name-IsNamed}

abbrev folder : ℕ → Option ℕ → Bool → FolderRow
folder id parent_id has_children = record {
  id = id;
  parent_id = parent_id;
  tree_root_id = some 1;
  read_only = false;
  owned_by_id = some 9;
  organization_id = none;
  sponsored_by_id = none;
  created_by_id = some 9;
  is_sponsored_root_folder = false;
  cached_has_children = has_children;
}

abbrev details : ℕ → Details
details id = record {
  name = id + 100;
  is_shared_folder = false;
  is_root_folder = id == 1;
  has_links = false;
}

abbrev tree : Tree
tree = record {
  rows = folder 1 none true ∷ folder 2 (some 1) false ∷ folder 3 (some 1) false ∷ [];
  details = details;
}

abbrev owner : Caller
owner = record { id = 9; may_reach = λ row. true; may_list = λ row. true }

abbrev queries : Queries
queries = record {
  descends = λ ancestor id. id == ancestor || ancestor == 1;
  sponsored_root = λ row. none;
}

tree-IsConsistent : IsConsistent tree.rows
tree-IsConsistent = (
  (
    (λ h. (refl, refl, refl, refl, λ r. refl)),
    ((λ h. (refl, refl, refl, refl, λ r. refl)), ((λ h. (refl, refl, refl, refl, λ r. refl)), tt)),
  ),
  (
    (
      (λ h. (refl, refl, refl, refl, λ r. refl)),
      (
        (λ h. (refl, refl, refl, refl, λ r. refl)),
        ((λ h. (refl, refl, refl, refl, λ r. refl)), tt),
      ),
    ),
    (
      (
        (λ h. (refl, refl, refl, refl, λ r. refl)),
        (
          (λ h. (refl, refl, refl, refl, λ r. refl)),
          ((λ h. (refl, refl, refl, refl, λ r. refl)), tt),
        ),
      ),
      tt,
    ),
  ),
)

tree-IsForest : IsForest tree.rows
tree-IsForest = ((λ id. id), (refl, (refl, (refl, tt))))

put-IsConsistent_example :
    IsConsistent (after tree (put queries owner 3 2 tree)).rows
    × IsForest (after tree (put queries owner 3 2 tree)).rows
put-IsConsistent_example =
    put-IsConsistent queries owner 3 2 tree (folder 2 (some 1) false) (folder 3 (some 1) false) refl
      refl tree-IsConsistent tree-IsForest (refl, (refl, (refl, tt))) (λ h. refl)
      ((λ h. ground arith), ((λ h. ground arith), ((λ h. refl), tt)))

delete-HasParents_example :
    let rows' = (after tree (delete owner 3 tree)).rows in All (HasParentIn rows') rows'
delete-HasParents_example =
    delete-HasParents owner 3 tree (folder 3 (some 1) false) refl
      ((λ h. ground arith), ((λ h. ground arith), ((λ h. refl), tt))) (refl, (refl, (refl, tt)))

patch_name-IsNamed_example : IsNamed (after tree (patch_name owner 3 102 tree))
patch_name-IsNamed_example =
    patch_name-IsNamed owner 3 102 tree (folder 3 (some 1) false) refl
      ((λ h. ground arith), ((λ h. ground arith), ((λ h. refl), tt)))
      ((refl, (refl, (refl, tt))), ((refl, (refl, (refl, tt))), ((refl, (refl, (refl, tt))), tt)))

same_name : patch_name owner 3 102 tree ≡ refused name_taken
unfolding patch_name validate_name validate
same_name = refl

-- A move is not compared with the names at the new location.
abbrev deeper : Tree
deeper = record {
  rows =
      folder 1 none true
      ∷ folder 2 (some 1) true
      ∷ folder 3 (some 1) false
      ∷ folder 4 (some 2) false
      ∷ [];
  details = λ id. record (details id) { name = if id == 4 then 103 else id + 100 };
}

moved_onto_name : is_saved (put queries owner 2 3 deeper) ≡ true
unfolding put validate_parent save_moved share_fields
moved_onto_name = refl
