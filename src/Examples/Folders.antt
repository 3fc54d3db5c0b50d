-- ===== src/Examples/Folders.antt =====
-- A personal tree and the tree of an organization; a folder with a child moves from one to the other.
use perma.Prelude.{
  ℕ, ◌≡◌, refl, Bool, true, false, ◌||◌, ◌&&◌, Option, none, some, List, [], ◌∷◌, arith, ◌==◌,
}
use perma.FolderTree.{FolderRow, save_new, save_moved}
use perma.FolderTree.Shared.{IsConsistent}
use perma.FolderTree.Moved.{save_moved-IsConsistent}
use perma.FolderTree.Added.{save_new-IsConsistent}

abbrev personal : ℕ → Option ℕ → Bool → FolderRow
personal id parent_id has_children = record {
  id = id;
  parent_id = parent_id;
  tree_root_id = some 1;
  read_only = false;
  owned_by_id = some 9;
  organization_id = none;
  sponsored_by_id = none;
  created_by_id = some 9;
  is_sponsored_root_folder = false;
  cached_has_children = has_children;
}

abbrev shared_folder : FolderRow
shared_folder = record {
  id = 4;
  parent_id = none;
  tree_root_id = some 4;
  read_only = false;
  owned_by_id = none;
  organization_id = some 5;
  sponsored_by_id = none;
  created_by_id = none;
  is_sponsored_root_folder = false;
  cached_has_children = false;
}

-- 3 is below 2, which is below 1.
abbrev rows : List FolderRow
rows =
    personal 1 none true ∷ personal 2 (some 1) true ∷ personal 3 (some 2) false ∷ shared_folder ∷ []

abbrev descends : ℕ → ℕ → Bool
descends ancestor id =
    id == 1 && ancestor == 1
    || id == 2 && (ancestor == 1 || ancestor == 2)
    || id == 3 && (ancestor == 1 || ancestor == 2 || ancestor == 3)
    || id == 4 && ancestor == 4

rows-IsConsistent : IsConsistent rows
rows-IsConsistent = (
  ((λ h. ground arith), ((λ h. ground arith), ((λ h. ground arith), ((λ h. ground arith), tt)))),
  (
    (
      (λ h. (refl, refl, refl, refl, λ r. refl)),
      ((λ h. ground arith), ((λ h. ground arith), ((λ h. ground arith), tt))),
    ),
    (
      (
        (λ h. ground arith),
        (
          (λ h. (refl, refl, refl, refl, λ r. refl)),
          ((λ h. ground arith), ((λ h. ground arith), tt)),
        ),
      ),
      (
        (
          (λ h. ground arith),
          ((λ h. ground arith), ((λ h. ground arith), ((λ h. ground arith), tt))),
        ),
        tt,
      ),
    ),
  ),
)

save_moved-IsConsistent_example :
    (rows' : List FolderRow) × (save_moved descends (personal 2 (some 1) true) 4 rows ≡ some rows')
    × IsConsistent rows'
save_moved-IsConsistent_example =
    save_moved-IsConsistent descends (personal 2 (some 1) true) shared_folder 4 rows
      rows-IsConsistent (refl, (refl, (refl, (refl, tt)))) (λ h. ground arith)
      ((λ h. ground arith), ((λ h. ground arith), ((λ h. ground arith), ((λ h. refl), tt)))) refl
      refl

save_new-IsConsistent_example :
    (rows' : List FolderRow) × (save_new (personal 6 (some 4) false) rows ≡ some rows')
    × IsConsistent rows'
save_new-IsConsistent_example =
    save_new-IsConsistent (personal 6 (some 4) false) shared_folder rows rows-IsConsistent
      ((λ h. ground arith), ((λ h. ground arith), ((λ h. ground arith), ((λ h. refl), tt))))
      (refl, (refl, (refl, (refl, tt)))) refl refl refl
