-- ===== src/FolderTree/Forest.antt =====
-- Moving a folder keeps the folders a forest: no folder comes to be its own ancestor.
use perma.Prelude.{
  ℕ, ◌+◌, ◌≡◌, refl, Bool, true, false, Option, none, some, List, arith, All, ltb, ◌==◌,
  if◌then◌else◌, Bool-cases, inl, inr, any_of, All-imp, All-zip,
}
use perma.FolderTree.{
  FolderRow, find, update, share_fields, in_own_subtree, move_row, mark_parent, mark_previous,
  mark_previous_if_any, save_moved, is_child_of,
}
use perma.FolderTree.Shared.{All-update, IsClosedAt, in_subtree_parent}
use perma.FolderTree.Moved.{own_subtree-IsClosedAt}

abbrev pub grows_from : (ℕ → ℕ) → ℕ → Option ℕ → Bool
grows_from depth id none = true
grows_from depth id (some parent_id) = ltb (depth parent_id) (depth id)

-- The folder is deeper than its parent, if it has one.
abbrev pub grows : (ℕ → ℕ) → FolderRow → Bool
grows depth row = grows_from depth row.id row.parent_id

-- The folders have depths that grow from each parent to its children, so that no folder is an
-- ancestor of itself.
abbrev pub IsForest : List FolderRow → Type 0
IsForest rows = (depth : ℕ → ℕ) × All (λ row. grows depth row ≡ true) rows

-- The depths after a move: those of the moved subtree lie below its new parent's.
abbrev moved_depth : (ℕ → Bool) → FolderRow → (ℕ → ℕ) → ℕ → ℕ
moved_depth in_subtree parent depth id =
    if in_subtree id then depth id + (depth parent.id + 1) else depth id

stays_below :
    (in_subtree : ℕ → Bool) (parent : FolderRow) (depth : ℕ → ℕ) (id : ℕ) (parent_id : Option ℕ)
    → in_subtree id ≡ in_subtree_parent in_subtree parent_id
    → grows_from depth id parent_id ≡ true
    → grows_from (moved_depth in_subtree parent depth) id parent_id ≡ true
stays_below in_subtree parent depth id none closed g = refl
stays_below in_subtree parent depth id (some parent_id) closed g =
    elim (Bool-cases (in_subtree parent_id)) [
      | inl inside ↦ ground arith
      | inr outside ↦ ground arith
    ]

moved-grows :
    (in_subtree : ℕ → Bool) (folder parent : FolderRow) (depth : ℕ → ℕ) (row : FolderRow)
    → in_subtree parent.id ≡ false
    → IsClosedAt in_subtree folder row
    → grows depth row ≡ true
    → grows (moved_depth in_subtree parent depth) (move_row in_subtree folder parent row) ≡ true
unfolding share_fields
moved-grows in_subtree folder parent depth row out closed g =
    elim (Bool-cases (row.id == folder.id)) [
      | inl itself ↦ let inside : in_subtree row.id ≡ true = ground arith in ground arith
      | inr other ↦
          let closed' : in_subtree row.id ≡ in_subtree_parent in_subtree row.parent_id =
            ground arith in
          let below = stays_below in_subtree parent depth row.id row.parent_id closed' g in
          ground arith
    ]

-- The flags of parents are no part of the forest.
mark_previous_if_any-grows :
    (depth : ℕ → ℕ) (folder_id : ℕ) (previous : Option ℕ) (rows : List FolderRow)
    → All (λ row. grows depth row ≡ true) rows
    → All (λ row. grows depth row ≡ true) (mark_previous_if_any folder_id previous rows)
mark_previous_if_any-grows depth folder_id none rows h = h
mark_previous_if_any-grows depth folder_id (some previous) rows h =
    All-update (λ row. grows depth row ≡ true) (mark_previous folder_id previous rows) rows h

-- If no folder is its own ancestor, then moving a folder to an existing folder outside its own subtree
-- keeps this so, given that the tree query returns the descendants, and that the folder has no children
-- if it is not marked to have some.
pub save_moved-IsForest :
    (descends : ℕ → ℕ → Bool) (folder parent : FolderRow) (parent_id : ℕ) (rows : List FolderRow)
    → IsForest rows
    → All (IsClosedAt (descends folder.id) folder) rows
    → (folder.cached_has_children ≡ false → any_of (is_child_of folder.id) rows ≡ false)
    → find parent_id rows ≡ some parent
    → in_own_subtree descends folder parent.id ≡ false
    → (rows' : List FolderRow) × (save_moved descends folder parent_id rows ≡ some rows')
      × IsForest rows'
unfolding save_moved
save_moved-IsForest descends folder parent parent_id rows (depth, h) closed flag found out =
    let in_subtree = in_own_subtree descends folder in
    let closed' = own_subtree-IsClosedAt descends folder rows closed flag in
    let depth' = moved_depth in_subtree parent depth in
    let moved = update (move_row in_subtree folder parent) rows in
    let marked = update (mark_parent parent.id) moved in
    let P = λ (row : FolderRow). grows depth' row ≡ true in
    (
      mark_previous_if_any folder.id folder.parent_id marked,
      rw (found, save_moved) refl,
      (
        depth',
        mark_previous_if_any-grows depth' folder.id folder.parent_id marked (
            All-update P (mark_parent parent.id) moved (
              All-update P (move_row in_subtree folder parent) rows (
                All-imp (λ row. IsClosedAt in_subtree folder row × (grows depth row ≡ true))
                  (λ row. P (move_row in_subtree folder parent row))
                  (λ row (c, g). moved-grows in_subtree folder parent depth row out c g) rows
                  (All-zip (IsClosedAt in_subtree folder) (λ row. grows depth row ≡ true) rows
                    closed' h)))),
      ),
    )
