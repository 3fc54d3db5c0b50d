-- ===== src/FolderApi/Moves.antt =====
-- A folder that the API moves: what was checked, and that its tree stays a consistent one.
use mathlib.Core.Path.{subst}
use perma.Prelude.{
  ℕ, ◌≡◌, refl, sym, ap, Bool, true, false, not, ◌&&◌, Option, none, some, List, [], ◌∷◌, arith,
  All, ◌==◌, if◌then◌else◌, Bool-cases, inl, inr, any_of, same_key, ==_iff, ◌∙◌, Option-cases,
}
use perma.FolderTree.{FolderRow, find, in_own_subtree, is_child_of, save_moved}
use perma.FolderTree.Shared.{IsConsistent, IsClosedAt}
use perma.FolderTree.Forest.{IsForest, save_moved-IsForest}
use perma.FolderTree.Moved.{IsOnly, save_moved-IsConsistent}
use perma.FolderApi.{
  Details, Tree, Caller, Queries, Refusal, Reply, refused, saved, validate_parent, or_else_refuse,
  save_parent, update_parent, put,
}

-- The tree after a request, which leaves it alone unless it saves.
abbrev pub after : Tree → Reply → Tree
after tree (refused refusal) = tree
after tree (saved tree') = tree'

abbrev pub is_saved : Reply → Bool
is_saved (refused refusal) = false
is_saved (saved tree) = true

pub find-id :
    (id : ℕ) (rows : List FolderRow) (row : FolderRow) → find id rows ≡ some row → row.id ≡ id
find-id id [] row e = cc
find-id id (first ∷ rows) row e = elim (Bool-cases (first.id == id)) [
  | inl here ↦
      let e' : some first ≡ some row = rw here at e in
      let same : first ≡ row = cc in subst (λ r. r.id ≡ id) same ((==_iff first.id id).0 here)
  | inr there ↦ find-id id rows row (rw there at e)
]

-- What the validations of a move have tested when it is saved.
abbrev pub is_movable : Queries → Caller → Details → FolderRow → FolderRow → Bool
is_movable queries caller details folder parent =
    caller.may_reach folder
    && caller.may_reach parent
    && caller.may_list parent
    && not details.is_shared_folder
    && not details.is_root_folder
    && not folder.is_sponsored_root_folder
    && not parent.is_sponsored_root_folder
    && not (folder.id == parent.id)
    && not (queries.descends folder.id parent.id)

validate_parent-none :
    (queries : Queries) (details : Details) (folder parent : FolderRow)
    → validate_parent queries details folder parent ≡ none
    → (not details.is_shared_folder
        && not details.is_root_folder
        && not folder.is_sponsored_root_folder
        && not parent.is_sponsored_root_folder
        && not (folder.id == parent.id)
        && not (queries.descends folder.id parent.id))
      ≡ true
unfolding validate_parent
validate_parent-none queries details folder parent h = ground arith

put-found :
    (queries : Queries) (caller : Caller) (parent_id folder_id : ℕ) (tree : Tree)
    (folder parent : FolderRow)
    → find folder_id tree.rows ≡ some folder
    → find parent_id tree.rows ≡ some parent
    → put queries caller parent_id folder_id tree ≡ (
        if caller.may_reach parent
        then (if caller.may_reach folder
            then update_parent queries caller folder (some parent) tree
            else refused Refusal.forbidden)
        else refused Refusal.forbidden)
unfolding put
put-found queries caller parent_id folder_id tree folder parent f p = rw (f, p) refl

granted :
    (b : Bool) (reply : Reply) (refusal : Refusal)
    → is_saved (if b then reply else refused refusal) ≡ true
    → (b ≡ true) × (is_saved reply ≡ true)
granted true reply refusal h = (refl, h)
granted false reply refusal h = cc

checked :
    (result : Option Refusal) (reply : Reply)
    → is_saved (or_else_refuse result reply) ≡ true
    → (result ≡ none) × (is_saved reply ≡ true)
checked none reply h = (refl, h)
checked (some refusal) reply h = cc

-- If a folder is saved by a PUT, then the caller may reach both the folder and its new parent, the folder
-- is no shared, personal or sponsored root folder, the parent is no sponsored root folder, and is
-- neither the folder itself nor one of its descendants.
pub put-is_movable :
    (queries : Queries) (caller : Caller) (parent_id folder_id : ℕ) (tree : Tree)
    (folder parent : FolderRow)
    → find folder_id tree.rows ≡ some folder
    → find parent_id tree.rows ≡ some parent
    → is_saved (put queries caller parent_id folder_id tree) ≡ true
    → is_movable queries caller (tree.details folder.id) folder parent ≡ true
put-is_movable queries caller parent_id folder_id tree folder parent f p h =
    let details = tree.details folder.id in
    let last = save_parent queries folder parent tree in
    let found =
      sym (ap is_saved (put-found queries caller parent_id folder_id tree folder parent f p)) ∙ h in
    let (reach_parent, rest) =
      granted (caller.may_reach parent)
        (if caller.may_reach folder
          then update_parent queries caller folder (some parent) tree
          else refused Refusal.forbidden)
        Refusal.forbidden found in
    let (reach_folder, rest') =
      granted (caller.may_reach folder) (update_parent queries caller folder (some parent) tree)
        Refusal.forbidden rest in
    let (listed, rest'') =
      granted (caller.may_list parent)
        (or_else_refuse (validate_parent queries details folder parent) last) Refusal.invalid_parent
        rest' in
    let (valid, _) = checked (validate_parent queries details folder parent) last rest'' in
    let movable = validate_parent-none queries details folder parent valid in ground arith

out_of_subtree :
    (queries : Queries) (details : Details) (folder parent : FolderRow)
    → validate_parent queries details folder parent ≡ none
    → in_own_subtree queries.descends folder parent.id ≡ false
out_of_subtree queries details folder parent h =
    let movable = validate_parent-none queries details folder parent h in ground arith

-- A property of the rows that a move out of the folder's own subtree keeps.
module _ (P : List FolderRow → Type 0) (queries : Queries) (folder parent : FolderRow) (tree : Tree)
    (holds : P tree.rows)
    (keeps : in_own_subtree queries.descends folder parent.id ≡ false
      → (rows' : List FolderRow) × (save_moved queries.descends folder parent.id tree.rows
          ≡ some rows')
        × P rows') where
  save_parent-keeps :
      in_own_subtree queries.descends folder parent.id ≡ false
      → P (after tree (save_parent queries folder parent tree)).rows
  save_parent-keeps out =
      let (rows', moves, kept) = keeps out in
      elim (Bool-cases (same_key folder.parent_id (some parent.id))) [
        | inl stays ↦ rw stays holds
        | inr goes ↦ rw (goes, moves) kept
      ]

  update_parent-keeps :
      (caller : Caller)
      → P (after tree (update_parent queries caller folder (some parent) tree)).rows
  update_parent-keeps caller =
      let details = tree.details folder.id in
      elim (Bool-cases (caller.may_list parent)) [
        | inl listed ↦ elim (Option-cases (validate_parent queries details folder parent)) [
          | inl valid ↦
              rw (listed, valid)
                (save_parent-keeps (out_of_subtree queries details folder parent valid))
          | inr (refusal, invalid) ↦ rw (listed, invalid) holds
        ]
        | inr unlisted ↦ rw unlisted holds
      ]

  put-keeps :
      (caller : Caller) (parent_id folder_id : ℕ)
      → find folder_id tree.rows ≡ some folder
      → find parent_id tree.rows ≡ some parent
      → P (after tree (put queries caller parent_id folder_id tree)).rows
  put-keeps caller parent_id folder_id f p =
      rw (put-found queries caller parent_id folder_id tree folder parent f p)
        (elim (Bool-cases (caller.may_reach parent)) [
          | inl reached ↦ elim (Bool-cases (caller.may_reach folder)) [
            | inl mine ↦ rw (reached, mine) (update_parent-keeps caller)
            | inr other ↦ rw (reached, other) holds
          ]
          | inr barred ↦ rw barred holds
        ])

-- If every folder has its parent's tree, permissions and owners, and no folder is its own ancestor, then
-- both hold after any PUT of an existing folder into an existing one, whether it is saved or refused: the
-- validations keep a folder out of itself and of its own subtree. It is assumed that the tree query
-- returns the descendants, that the new parent's id is unique, and that the folder has no children if it
-- is not marked to have some.
pub put-IsConsistent :
    (queries : Queries) (caller : Caller) (parent_id folder_id : ℕ) (tree : Tree)
    (folder parent : FolderRow)
    → find folder_id tree.rows ≡ some folder
    → find parent_id tree.rows ≡ some parent
    → IsConsistent tree.rows
    → IsForest tree.rows
    → All (IsClosedAt (queries.descends folder.id) folder) tree.rows
    → (folder.cached_has_children ≡ false → any_of (is_child_of folder.id) tree.rows ≡ false)
    → All (IsOnly parent) tree.rows
    → IsConsistent (after tree (put queries caller parent_id folder_id tree)).rows
      × IsForest (after tree (put queries caller parent_id folder_id tree)).rows
put-IsConsistent queries caller parent_id folder_id tree folder parent f p consistent forest closed
      flag only =
    let found : find parent.id tree.rows ≡ some parent =
      ap (λ id. find id tree.rows) (find-id parent_id tree.rows parent p) ∙ p in
    (
      put-keeps IsConsistent queries folder parent tree consistent
          (save_moved-IsConsistent queries.descends folder parent parent.id tree.rows consistent
            closed flag only found)
          caller parent_id folder_id f p,
      put-keeps IsForest queries folder parent tree forest
          (save_moved-IsForest queries.descends folder parent parent.id tree.rows forest closed flag
            found)
          caller parent_id folder_id f p,
    )
