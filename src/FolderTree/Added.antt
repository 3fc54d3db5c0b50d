-- ===== src/FolderTree/Added.antt =====
-- A new folder takes its parent's fields, and its tree stays consistent.
use mathlib.Core.Path.{subst}
use perma.Prelude.{
  ℕ, ◌≡◌, refl, ◌∙◌, false, ◌&&◌, some, List, ◌∷◌, arith, All, is_none, sym, All-imp, All-zip, ap,
}
use perma.FolderTree.{
  FolderRow, find, update, mark_parent, save_new, insert_at, insert_below, is_child_of,
  share_fields, set_owner,
}
use perma.FolderTree.Shared.{Shares, SharesIfChild, IsConsistent, mark_parent-IsConsistent}
use perma.FolderTree.Moved.{IsOnly}

abbrev pub IsNotParentOf : ℕ → FolderRow → Type 0
IsNotParentOf id row = is_child_of id row ≡ false

-- The folder as it is inserted.
abbrev pub inserted : FolderRow → FolderRow → FolderRow
inserted parent folder = set_owner (share_fields parent folder.sponsored_by_id folder)

inserted-share_fields :
    (parent folder : FolderRow)
    → (is_none parent.owned_by_id && is_none parent.organization_id) ≡ false
    → (inserted parent folder ≡ share_fields parent folder.sponsored_by_id folder)
unfolding set_owner share_fields
inserted-share_fields parent folder owned = ground arith

Shares-parent :
    (parent folder : FolderRow) → Shares parent (share_fields parent folder.sponsored_by_id folder)
unfolding share_fields
Shares-parent parent folder = (refl, refl, refl, refl, λ r. rw r refl)

module _ (parent folder : FolderRow) where
  abbrev shared : FolderRow
  shared = share_fields parent folder.sponsored_by_id folder

  -- The new folder as a child of a row of the table.
  new-SharesIfChild :
      (other : FolderRow)
      → folder.parent_id ≡ some parent.id
      → IsOnly parent other
      → SharesIfChild shared other
  unfolding share_fields
  new-SharesIfChild other p only c =
      subst (λ row. Shares row shared) (sym (only (ground arith))) (Shares-parent parent folder)

  -- A row of the table as a child of the new folder, which it is not.
  old-SharesIfChild : (row : FolderRow) → IsNotParentOf folder.id row → SharesIfChild row shared
  unfolding share_fields
  old-SharesIfChild row fresh c = ground arith

  with_new-IsConsistent :
      (rows : List FolderRow)
      → IsConsistent rows
      → All (IsOnly parent) rows
      → All (IsNotParentOf folder.id) rows
      → folder.parent_id ≡ some parent.id
      → IsConsistent (shared ∷ rows)
  with_new-IsConsistent rows consistent only fresh p = (
    (
      (λ c. (refl, refl, refl, refl, λ r. refl)),
      All-imp (IsOnly parent) (SharesIfChild shared) (λ other o. new-SharesIfChild other p o) rows
          only,
    ),
    All-imp (λ row. All (SharesIfChild row) rows × IsNotParentOf folder.id row)
        (λ row. All (SharesIfChild row) (shared ∷ rows))
        (λ row (h, f). (old-SharesIfChild row f, h)) rows
        (All-zip (λ row. All (SharesIfChild row) rows) (IsNotParentOf folder.id) rows consistent
          fresh),
  )

-- If every folder has its parent's tree, permissions and owners, then creating a folder below an
-- existing one succeeds and keeps this so, given that the new id is no folder's parent, that the
-- parent's id is unique, and that the parent has an owner.
pub save_new-IsConsistent :
    (folder parent : FolderRow) (rows : List FolderRow)
    → IsConsistent rows
    → All (IsOnly parent) rows
    → All (IsNotParentOf folder.id) rows
    → folder.parent_id ≡ some parent.id
    → find parent.id rows ≡ some parent
    → (is_none parent.owned_by_id && is_none parent.organization_id) ≡ false
    → (rows' : List FolderRow) × (save_new folder rows ≡ some rows') × IsConsistent rows'
unfolding save_new
save_new-IsConsistent folder parent rows consistent only fresh p found owned = (
  update (mark_parent parent.id) (inserted parent folder ∷ rows),
  (ap (λ k. insert_at k folder rows) p ∙ ap (insert_below folder rows) found),
  mark_parent-IsConsistent parent.id (inserted parent folder ∷ rows) (
      subst (λ row. IsConsistent (row ∷ rows)) (sym (inserted-share_fields parent folder owned))
        (with_new-IsConsistent parent folder rows consistent only fresh p)),
)
