-- ===== src/FolderTree/Shared.antt =====
-- A folder shares its tree's fields with its parent, whatever is moved.
use perma.Prelude.{
  ℕ, ◌≡◌, refl, ◌∙◌, Bool, true, false, ◌||◌, Option, none, some, List, [], ◌∷◌, arith, All, ◌==◌,
  if◌then◌else◌, Bool-cases, inl, inr, sym, All-imp, same_key-eq, ap,
}
use perma.FolderTree.{
  FolderRow, update, share_fields, move_row, mark_parent, mark_previous, mark_previous_if_any,
  is_child_of,
}

-- The fields that a child takes from its parent; `sponsored_by` not below a top-level sponsored folder.
abbrev pub Shares : FolderRow → FolderRow → Type 0
Shares parent child =
    (child.tree_root_id ≡ parent.tree_root_id)
    × (child.read_only ≡ parent.read_only)
    × (child.owned_by_id ≡ parent.owned_by_id)
    × (child.organization_id ≡ parent.organization_id)
    × (parent.is_sponsored_root_folder ≡ false → child.sponsored_by_id ≡ parent.sponsored_by_id)

abbrev pub SharesIfChild : FolderRow → FolderRow → Type 0
SharesIfChild child parent = is_child_of parent.id child ≡ true → Shares parent child

-- Every folder shares its parent's fields.
abbrev pub IsConsistent : List FolderRow → Type 0
IsConsistent rows = All (λ child. All (λ parent. SharesIfChild child parent) rows) rows

module _ {ℓ} (P : FolderRow → Type ℓ) (f : FolderRow → FolderRow) where
  pub All-update : (rows : List FolderRow) → All (λ row. P (f row)) rows → All P (update f rows)
  All-update [] h = tt
  All-update (row ∷ rows) (h, hs) = (h, All-update rows hs)

pub IsConsistent-update :
    (f : FolderRow → FolderRow) (rows : List FolderRow)
    → All (λ child. All (λ parent. SharesIfChild (f child) (f parent)) rows) rows
    → IsConsistent (update f rows)
IsConsistent-update f rows h =
    All-update (λ child. All (λ parent. SharesIfChild child parent) (update f rows)) f rows
      (All-imp (λ child. All (λ parent. SharesIfChild (f child) (f parent)) rows)
        (λ child. All (λ parent. SharesIfChild (f child) parent) (update f rows))
        (λ child hs. All-update (λ parent. SharesIfChild (f child) parent) f rows hs) rows h)

-- The flags of parents are not shared.
pub mark_parent-IsConsistent :
    (id : ℕ) (rows : List FolderRow)
    → IsConsistent rows
    → IsConsistent (update (mark_parent id) rows)
mark_parent-IsConsistent id rows = IsConsistent-update (mark_parent id) rows

pub mark_previous_if_any-IsConsistent :
    (folder_id : ℕ) (previous : Option ℕ) (rows : List FolderRow)
    → IsConsistent rows
    → IsConsistent (mark_previous_if_any folder_id previous rows)
mark_previous_if_any-IsConsistent folder_id none rows h = h
mark_previous_if_any-IsConsistent folder_id (some previous) rows h =
    IsConsistent-update (mark_previous folder_id previous rows) rows h

abbrev pub in_subtree_parent : (ℕ → Bool) → Option ℕ → Bool
in_subtree_parent in_subtree none = false
in_subtree_parent in_subtree (some id) = in_subtree id

-- What the tree query returns: the folder itself and, beside it, exactly the folders whose parent it returns.
abbrev pub IsClosedAt : (ℕ → Bool) → FolderRow → FolderRow → Type 0
IsClosedAt in_subtree folder row =
    in_subtree row.id ≡ (row.id == folder.id || in_subtree_parent in_subtree row.parent_id)

module _ (in_subtree : ℕ → Bool) (folder parent : FolderRow) where
  parent_of-child :
      (child other : FolderRow)
      → is_child_of other.id child ≡ true
      → in_subtree_parent in_subtree child.parent_id ≡ in_subtree other.id
  parent_of-child child other c =
      ap (in_subtree_parent in_subtree) (same_key-eq child.parent_id (some other.id) c)

  pub move_row-SharesIfChild :
      (child other : FolderRow)
      → IsClosedAt in_subtree folder child
      → in_subtree parent.id ≡ false
      → ((other.id == parent.id) ≡ true → other ≡ parent)
      → SharesIfChild child other
      → SharesIfChild
          (move_row in_subtree folder parent child)
          (move_row in_subtree folder parent other)
  unfolding share_fields
  move_row-SharesIfChild child other closed out unique h = elim (Bool-cases (in_subtree other.id)) [
    | inl o ↦ elim (Bool-cases (in_subtree child.id)) [
      | inl d ↦ rw (o, d) (λ c. (refl, refl, refl, refl, λ r. refl))
      | inr d ↦ rw (o, d) (λ c. let whose = parent_of-child child other in ground arith)
    ]
    | inr o ↦ elim (Bool-cases (child.id == folder.id)) [
      | inl e ↦
          let d : in_subtree child.id ≡ true = ground arith in
          rw (o, d, e)
            (λ c.
              let same : other ≡ parent = unique (ground arith) in
              (
                ap (λ r. r.tree_root_id) (sym same),
                ap (λ r. r.read_only) (sym same),
                ap (λ r. r.owned_by_id) (sym same),
                ap (λ r. r.organization_id) (sym same),
                λ root.
                    ap (λ b. if b then folder.sponsored_by_id else parent.sponsored_by_id)
                      (ap (λ r. r.is_sponsored_root_folder) (sym same) ∙ root)
                    ∙ ap (λ r. r.sponsored_by_id) (sym same),
              ))
      | inr e ↦ elim (Bool-cases (in_subtree child.id)) [
        | inl d ↦ rw (o, d, e) (λ c. let whose = parent_of-child child other c in ground arith)
        | inr d ↦ rw (o, d, e) h
      ]
    ]
  ]
