-- ===== src/FolderApi/Deletion.antt =====
-- Deleting a folder through the API: the flags of the folders that have children stay true, and no folder
-- loses its parent.

use perma.Prelude.{
  ℕ, ◌≡◌, ◌⊎◌, refl, sym, ap, ◌∙◌, Bool, true, false, not, ◌||◌, Option, none, some, List, [], ◌∷◌,
  arith, All, All-imp, All-zip, All-filter_if, ◌==◌, if◌then◌else◌, Bool-cases, inl, inr, any_of,
  same_key, ==_iff,
}
use perma.FolderTree.{FolderRow, find, update, is_child_of}
use perma.FolderTree.Shared.{All-update}
use perma.FolderTree.Moved.{IsOnly}
use perma.FolderApi.{
  Tree, Caller, Refusal, refused, saved, other_rows, recount, recount_if_any, delete_row, is_empty,
  delete,
}
use perma.FolderApi.Moves.{after}

-- `cached_has_children` says whether a row has the folder as its parent.
abbrev pub IsFlaggedIn : List FolderRow → FolderRow → Type 0
IsFlaggedIn rows row = row.cached_has_children ≡ any_of (is_child_of row.id) rows

abbrev pub IsFlagged : List FolderRow → Type 0
IsFlagged rows = All (IsFlaggedIn rows) rows

any_of-other_rows :
    (p : FolderRow → Bool) (folder : FolderRow) (rows : List FolderRow)
    → All (IsOnly folder) rows
    → p folder ≡ false
    → any_of p (other_rows folder.id rows) ≡ any_of p rows
any_of-other_rows p folder [] only h = refl
any_of-other_rows p folder (row ∷ rows) (one, only) h = elim (Bool-cases (row.id == folder.id)) [
  | inl own ↦ rw (own, ap p (one own) ∙ h) (any_of-other_rows p folder rows only h)
  | inr other ↦
      rw other (ap (λ b. if p row then true else b) (any_of-other_rows p folder rows only h))
]

any_of-recount :
    (id parent_id : ℕ) (all rows : List FolderRow)
    → any_of (is_child_of id) (update (recount parent_id all) rows) ≡ any_of (is_child_of id) rows
any_of-recount id parent_id all [] = refl
any_of-recount id parent_id all (row ∷ rows) =
    ap (λ b. if is_child_of id row then true else b) (any_of-recount id parent_id all rows)

-- A row keeps its flag where the folder that goes is no child of it.
other_row-IsFlaggedIn :
    (folder row : FolderRow) (rows : List FolderRow)
    → All (IsOnly folder) rows
    → is_child_of row.id folder ≡ false
    → IsFlaggedIn rows row
    → IsFlaggedIn (other_rows folder.id rows) row
other_row-IsFlaggedIn folder row rows only h flagged =
    flagged ∙ sym (any_of-other_rows (is_child_of row.id) folder rows only h)

not_child :
    (parent_id : Option ℕ) (folder row : FolderRow)
    → folder.parent_id ≡ parent_id
    → same_key parent_id (some row.id) ≡ false
    → is_child_of row.id folder ≡ false
not_child parent_id folder row e h = ap (λ key. same_key key (some row.id)) e ∙ h

recount-IsFlaggedIn :
    (folder row : FolderRow) (parent_id : ℕ) (rows : List FolderRow)
    → folder.parent_id ≡ some parent_id
    → All (IsOnly folder) rows
    → IsFlaggedIn rows row
    → let left = other_rows folder.id rows in
      IsFlaggedIn (update (recount parent_id left) left) (recount parent_id left row)
recount-IsFlaggedIn folder row parent_id rows e only flagged =
    let left = other_rows folder.id rows in
    elim (Bool-cases (row.id == parent_id)) [
      | inl own ↦ rw own (
          ap (λ id. any_of (is_child_of id) left) (sym ((==_iff row.id parent_id).0 own))
          ∙ sym (any_of-recount row.id parent_id left left))
      | inr other ↦
          let differs : same_key (some parent_id) (some row.id) ≡ false = ground arith in
          rw other (
            other_row-IsFlaggedIn folder row rows only
              (not_child (some parent_id) folder row e differs) flagged
            ∙ sym (any_of-recount row.id parent_id left left))
    ]

delete_row-IsFlagged :
    (folder : FolderRow) (parent_id : Option ℕ) (rows : List FolderRow)
    → folder.parent_id ≡ parent_id
    → All (IsOnly folder) rows
    → IsFlagged rows
    → IsFlagged (recount_if_any parent_id (other_rows folder.id rows))
delete_row-IsFlagged folder none rows e only h =
    let left = other_rows folder.id rows in
    All-imp (IsFlaggedIn rows) (IsFlaggedIn left)
      (λ row. other_row-IsFlaggedIn folder row rows only (not_child none folder row e refl)) left
      (All-filter_if (IsFlaggedIn rows) (λ (row : FolderRow). not (row.id == folder.id)) rows h)
delete_row-IsFlagged folder (some parent_id) rows e only h =
    let left = other_rows folder.id rows in
    let rows' = update (recount parent_id left) left in
    All-update (IsFlaggedIn rows') (recount parent_id left) left (
      All-imp (IsFlaggedIn rows) (λ row. IsFlaggedIn rows' (recount parent_id left row))
        (λ row. recount-IsFlaggedIn folder row parent_id rows e only) left
        (All-filter_if (IsFlaggedIn rows) (λ (row : FolderRow). not (row.id == folder.id)) rows h))

-- The reply to a DELETE of a folder that is there.
delete-reply :
    (caller : Caller) (folder_id : ℕ) (tree : Tree) (folder : FolderRow)
    → find folder_id tree.rows ≡ some folder
    → ((refusal : Refusal) × (delete caller folder_id tree ≡ refused refusal))
      ⊎ ((delete caller folder_id tree ≡ saved (record tree { rows = delete_row folder tree.rows }))
          × (is_empty folder tree ≡ true)
          × ((tree.details folder.id).is_shared_folder ≡ false)
          × ((tree.details folder.id).is_root_folder ≡ false))
unfolding delete
delete-reply caller folder_id tree folder found =
    let details = tree.details folder.id in
    elim (Bool-cases (caller.may_reach folder)) [
      | inr other ↦ inl (Refusal.forbidden, rw (found, other) refl)
      | inl mine ↦ elim (Bool-cases (details.is_shared_folder || details.is_root_folder)) [
        | inl top ↦ inl (Refusal.top_level_deleted, rw (found, mine, top) refl)
        | inr below ↦ elim (Bool-cases (is_empty folder tree)) [
          | inr full ↦ inl (Refusal.not_empty, rw (found, mine, below, full) refl)
          | inl empty ↦ inr (rw (found, mine, below, empty) refl, empty, ground arith, ground arith)
        ]
      ]
    ]

-- If `cached_has_children` is true of exactly the folders that have children, and the id of the folder
-- is its own, then this holds after any DELETE of it, whether it is deleted or refused.
pub delete-IsFlagged :
    (caller : Caller) (folder_id : ℕ) (tree : Tree) (folder : FolderRow)
    → find folder_id tree.rows ≡ some folder
    → All (IsOnly folder) tree.rows
    → IsFlagged tree.rows
    → IsFlagged (after tree (delete caller folder_id tree)).rows
delete-IsFlagged caller folder_id tree folder found only h =
    elim (delete-reply caller folder_id tree folder found) [
      | inl (refusal, e) ↦ rw e h
      | inr (e, empty, below, personal) ↦
          rw e (
            unfold delete_row in delete_row-IsFlagged folder folder.parent_id tree.rows refl only h)
    ]

-- The parent of a row, if it has one, is there.
abbrev pub has_parent : List FolderRow → Option ℕ → Bool
has_parent rows none = true
has_parent rows (some parent_id) = any_of (λ (row : FolderRow). row.id == parent_id) rows

abbrev pub HasParentIn : List FolderRow → FolderRow → Type 0
HasParentIn rows row = has_parent rows row.parent_id ≡ true

pub any_of-All :
    (p : FolderRow → Bool) (rows : List FolderRow)
    → any_of p rows ≡ false
    → All (λ row. p row ≡ false) rows
any_of-All p [] h = tt
any_of-All p (row ∷ rows) h = elim (Bool-cases (p row)) [
  | inl here ↦ absurd (ground arith)
  | inr there ↦ (there, any_of-All p rows (rw there at h))
]

has_parent-other_rows :
    (folder : FolderRow) (parent_id : Option ℕ) (rows : List FolderRow)
    → All (IsOnly folder) rows
    → same_key parent_id (some folder.id) ≡ false
    → has_parent rows parent_id ≡ true
    → has_parent (other_rows folder.id rows) parent_id ≡ true
has_parent-other_rows folder none rows only no_child h = refl
has_parent-other_rows folder (some parent_id) rows only no_child h =
    let elsewhere : (folder.id == parent_id) ≡ false = ground arith in
    any_of-other_rows (λ row. row.id == parent_id) folder rows only elsewhere ∙ h

has_parent-recount :
    (parent_id : ℕ) (all rows : List FolderRow) (key : Option ℕ)
    → has_parent (update (recount parent_id all) rows) key ≡ has_parent rows key
has_parent-recount parent_id all rows none = refl
has_parent-recount parent_id all [] (some id) = refl
has_parent-recount parent_id all (row ∷ rows) (some id) =
    ap (λ b. if row.id == id then true else b) (has_parent-recount parent_id all rows (some id))

recount_if_any-HasParents :
    (parent_id : Option ℕ) (rows : List FolderRow)
    → All (HasParentIn rows) rows
    → All (HasParentIn (recount_if_any parent_id rows)) (recount_if_any parent_id rows)
recount_if_any-HasParents none rows h = h
recount_if_any-HasParents (some parent_id) rows h =
    let rows' = update (recount parent_id rows) rows in
    All-update (HasParentIn rows') (recount parent_id rows) rows (
      All-imp (HasParentIn rows) (λ row. HasParentIn rows' (recount parent_id rows row))
        (λ row present. has_parent-recount parent_id rows rows row.parent_id ∙ present) rows h)

empty-no_child :
    (folder : FolderRow) (tree : Tree)
    → is_empty folder tree ≡ true
    → any_of (is_child_of folder.id) tree.rows ≡ false
unfolding is_empty
empty-no_child folder tree h = ground arith

-- If the parent of every folder is there, and the id of the folder is its own, then no DELETE of
-- it takes a folder's parent away.
pub delete-HasParents :
    (caller : Caller) (folder_id : ℕ) (tree : Tree) (folder : FolderRow)
    → find folder_id tree.rows ≡ some folder
    → All (IsOnly folder) tree.rows
    → All (HasParentIn tree.rows) tree.rows
    → let rows' = (after tree (delete caller folder_id tree)).rows in All (HasParentIn rows') rows'
delete-HasParents caller folder_id tree folder found only h =
    elim (delete-reply caller folder_id tree folder found) [
      | inl (refusal, e) ↦ rw e h
      | inr (e, empty, below, personal) ↦
          let left = other_rows folder.id tree.rows in
          let childless =
            any_of-All (is_child_of folder.id) tree.rows (empty-no_child folder tree empty) in
          let kept =
            All-imp (λ row. HasParentIn tree.rows row × (is_child_of folder.id row ≡ false))
              (HasParentIn left)
              (λ row (present, other).
                has_parent-other_rows folder row.parent_id tree.rows only other present)
              tree.rows
              (All-zip (HasParentIn tree.rows) (λ row. is_child_of folder.id row ≡ false) tree.rows
                h childless) in
          rw e (
            unfold delete_row in
            recount_if_any-HasParents folder.parent_id left (
              All-filter_if (HasParentIn left) (λ (row : FolderRow). not (row.id == folder.id))
                tree.rows kept))
    ]
