-- ===== src/FolderTree/Moved.antt =====
-- Moving a folder keeps its tree consistent.
use mathlib.Core.Path.{subst}
use perma.Prelude.{
  same_key, ℕ, ◌≡◌, refl, Bool, true, false, ◌||◌, Option, none, some, List, [], ◌∷◌, arith, All,
  ◌==◌, if◌then◌else◌, Bool-cases, inl, inr, sym, any_of, All-imp, All-zip,
}
use perma.FolderTree.{
  FolderRow, find, update, in_own_subtree, move_row, mark_parent, mark_previous_if_any, save_moved,
  is_child_of,
}
use perma.FolderTree.Shared.{
  SharesIfChild, IsConsistent, IsConsistent-update, mark_parent-IsConsistent,
  mark_previous_if_any-IsConsistent, in_subtree_parent, IsClosedAt, move_row-SharesIfChild,
}

-- Ids are unique: the rows with a row's id are that row.
abbrev pub IsOnly : FolderRow → FolderRow → Type 0
IsOnly row other = (other.id == row.id) ≡ true → other ≡ row

unparented :
    (id : ℕ) (itself : Bool) (parent_id : Option ℕ)
    → same_key parent_id (some id) ≡ false
    → itself ≡ (itself || in_subtree_parent (λ other. other == id) parent_id)
unparented id itself none h = ground arith
unparented id itself (some parent) h = ground arith

no_child :
    (folder : FolderRow) (rows : List FolderRow)
    → any_of (is_child_of folder.id) rows ≡ false
    → All (IsClosedAt (λ id. id == folder.id) folder) rows
no_child folder [] h = tt
no_child folder (row ∷ rows) h = (
  unparented folder.id (row.id == folder.id) row.parent_id (ground arith),
  no_child folder rows (ground arith),
)

-- The subtree that `save` computes is closed, also where it goes by the flag `cached_has_children`.
pub own_subtree-IsClosedAt :
    (descends : ℕ → ℕ → Bool) (folder : FolderRow) (rows : List FolderRow)
    → All (IsClosedAt (descends folder.id) folder) rows
    → (folder.cached_has_children ≡ false → any_of (is_child_of folder.id) rows ≡ false)
    → All (IsClosedAt (in_own_subtree descends folder) folder) rows
own_subtree-IsClosedAt descends folder rows closed flag =
    elim (Bool-cases folder.cached_has_children) [
      | inl e ↦
          subst
            (λ b.
              All (IsClosedAt (λ id. if b then descends folder.id id else id == folder.id) folder)
                rows)
            (sym e) closed
      | inr e ↦
          subst
            (λ b.
              All (IsClosedAt (λ id. if b then descends folder.id id else id == folder.id) folder)
                rows)
            (sym e) (no_child folder rows (flag e))
    ]

moved_rows :
    (in_subtree : ℕ → Bool) (folder parent : FolderRow) (rows : List FolderRow)
    → IsConsistent rows
    → All (IsClosedAt in_subtree folder) rows
    → All (IsOnly parent) rows
    → in_subtree parent.id ≡ false
    → All
        (λ child.
          All
            (λ other.
              SharesIfChild
                (move_row in_subtree folder parent child)
                (move_row in_subtree folder parent other))
            rows)
        rows
moved_rows in_subtree folder parent rows consistent closed only out =
    All-imp (λ child. All (SharesIfChild child) rows × IsClosedAt in_subtree folder child)
      (λ child.
        All
          (λ other.
            SharesIfChild (move_row in_subtree folder parent child)
              (move_row in_subtree folder parent other))
          rows)
      (λ child (shares, closed_at).
        All-imp (λ other. SharesIfChild child other × IsOnly parent other)
          (λ other.
            SharesIfChild (move_row in_subtree folder parent child)
              (move_row in_subtree folder parent other))
          (λ other (h, only_one).
            move_row-SharesIfChild in_subtree folder parent child other closed_at out only_one h)
          rows (All-zip (SharesIfChild child) (IsOnly parent) rows shares only))
      rows
      (All-zip (λ child. All (SharesIfChild child) rows) (IsClosedAt in_subtree folder) rows
        consistent closed)

-- If every folder has its parent's tree, permissions and owners, then moving a folder to an
-- existing folder outside its own subtree succeeds and keeps this so, given that the tree query
-- returns the descendants, that the new parent's id is unique, and that the folder has no children
-- if it is not marked to have some.
pub save_moved-IsConsistent :
    (descends : ℕ → ℕ → Bool) (folder parent : FolderRow) (parent_id : ℕ) (rows : List FolderRow)
    → IsConsistent rows
    → All (IsClosedAt (descends folder.id) folder) rows
    → (folder.cached_has_children ≡ false → any_of (is_child_of folder.id) rows ≡ false)
    → All (IsOnly parent) rows
    → find parent_id rows ≡ some parent
    → in_own_subtree descends folder parent.id ≡ false
    → (rows' : List FolderRow) × (save_moved descends folder parent_id rows ≡ some rows')
      × IsConsistent rows'
unfolding save_moved
save_moved-IsConsistent descends folder parent parent_id rows consistent closed flag only found
      out =
    let moved = update (move_row (in_own_subtree descends folder) folder parent) rows in
    let marked = update (mark_parent parent.id) moved in
    (
      mark_previous_if_any folder.id folder.parent_id marked,
      rw (found, save_moved) refl,
      mark_previous_if_any-IsConsistent folder.id folder.parent_id marked (
          mark_parent-IsConsistent parent.id moved (
            IsConsistent-update (move_row (in_own_subtree descends folder) folder parent) rows (
              moved_rows (in_own_subtree descends folder) folder parent rows consistent
                (own_subtree-IsClosedAt descends folder rows closed flag) only out))),
    )
