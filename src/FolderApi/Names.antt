-- ===== src/FolderApi/Names.antt =====
-- Folders that are renamed through the API keep names of their own beside their siblings.
use perma.Prelude.{
  ℕ, ◌≡◌, refl, ap, ◌∙◌, Bool, true, false, not, ◌&&◌, Option, none, some, arith, All, All-imp,
  All-zip, ◌==◌, Bool-cases, Option-cases, inl, inr, any_of, same_key, truthy, All-of_every,
}
use perma.FolderTree.{FolderRow, find}
use perma.FolderTree.Moved.{IsOnly}
use perma.FolderApi.{
  Tree, Caller, Refusal, refuse_if, validate_name, is_named_at, validate, set_name, patch_name,
}
use perma.FolderApi.Moves.{after}
use perma.FolderApi.Deletion.{any_of-All}

-- Two folders of one name at one location.
abbrev pub clash : Tree → FolderRow → FolderRow → Bool
clash tree a b =
    not (a.id == b.id)
    && truthy a.parent_id
    && same_key a.parent_id b.parent_id
    && (tree.details a.id).name == (tree.details b.id).name

abbrev pub IsNamed : Tree → Type 0
IsNamed tree = All (λ a. All (λ b. clash tree a b ≡ false) tree.rows) tree.rows

-- What `validate` finds of one row when it lets a name pass.
abbrev is_free : Option ℕ → ℕ → ℕ → Tree → FolderRow → Bool
is_free none name folder_id tree row = true
is_free (some parent_id) name folder_id tree row =
    not (is_named_at parent_id name tree row && not (same_key (some row.id) (some folder_id)))

rename-clash :
    (folder a b : FolderRow) (key : Option ℕ) (name : ℕ) (tree : Tree)
    → folder.parent_id ≡ key
    → IsOnly folder a
    → IsOnly folder b
    → is_free key name folder.id tree a ≡ true
    → is_free key name folder.id tree b ≡ true
    → clash tree a b ≡ false
    → clash (set_name folder.id name tree) a b ≡ false
rename-clash folder a b none name tree e one two free_a free_b h =
    elim (Bool-cases (a.id == folder.id)) [
      | inl own_a ↦
          let top : a.parent_id ≡ none = ap (λ r. r.parent_id) (one own_a) ∙ e in ground arith
      | inr other_a ↦ elim (Bool-cases (b.id == folder.id)) [
        | inl own_b ↦
            let top : b.parent_id ≡ none = ap (λ r. r.parent_id) (two own_b) ∙ e in ground arith
        | inr other_b ↦ ground arith
      ]
    ]
rename-clash folder a b (some key) name tree e one two free_a free_b h =
    elim (Bool-cases (a.id == folder.id)) [
      | inl own_a ↦
          let below : a.parent_id ≡ some key = ap (λ r. r.parent_id) (one own_a) ∙ e in ground arith
      | inr other_a ↦ elim (Bool-cases (b.id == folder.id)) [
        | inl own_b ↦
            let below : b.parent_id ≡ some key = ap (λ r. r.parent_id) (two own_b) ∙ e in
            ground arith
        | inr other_b ↦ ground arith
      ]
    ]

refuse_if-none : (b : Bool) (refusal : Refusal) → refuse_if b refusal none ≡ none → b ≡ false
refuse_if-none true refusal h = cc
refuse_if-none false refusal h = refl

validate-is_free :
    (folder_id name : ℕ) (key : Option ℕ) (tree : Tree)
    → validate (some folder_id) key name tree ≡ none
    → All (λ row. is_free key name folder_id tree row ≡ true) tree.rows
unfolding validate
validate-is_free folder_id name none tree h =
    All-of_every (λ row. true ≡ true) (λ row. refl) tree.rows
validate-is_free folder_id name (some parent_id) tree h =
    let taken = λ (row : FolderRow).
      is_named_at parent_id name tree row && not (same_key (some row.id) (some folder_id)) in
    All-imp (λ row. taken row ≡ false)
      (λ row. is_free (some parent_id) name folder_id tree row ≡ true) (λ row free. ap not free)
      tree.rows
      (any_of-All taken tree.rows (refuse_if-none (any_of taken tree.rows) Refusal.name_taken h))

-- What is known of a row that a renamed folder is compared with.
abbrev MayClash : FolderRow → ℕ → Tree → FolderRow → Type 0
MayClash folder name tree row =
    IsOnly folder row × (is_free folder.parent_id name folder.id tree row ≡ true)

set_name-IsNamed :
    (folder : FolderRow) (name : ℕ) (tree : Tree)
    → validate (some folder.id) folder.parent_id name tree ≡ none
    → All (IsOnly folder) tree.rows
    → IsNamed tree
    → IsNamed (set_name folder.id name tree)
set_name-IsNamed folder name tree valid only h =
    let free = validate-is_free folder.id name folder.parent_id tree valid in
    let facts =
      All-zip (IsOnly folder) (λ row. is_free folder.parent_id name folder.id tree row ≡ true)
        tree.rows only free in
    All-imp (λ a. All (λ b. clash tree a b ≡ false) tree.rows × MayClash folder name tree a)
      (λ a. All (λ b. clash (set_name folder.id name tree) a b ≡ false) tree.rows)
      (λ a (clear, (one, free_a)).
        All-imp (λ b. (clash tree a b ≡ false) × MayClash folder name tree b)
          (λ b. clash (set_name folder.id name tree) a b ≡ false)
          (λ b (c, (two, free_b)).
            rename-clash folder a b folder.parent_id name tree refl one two free_a free_b c)
          tree.rows
          (All-zip (λ b. clash tree a b ≡ false) (MayClash folder name tree) tree.rows clear facts))
      tree.rows
      (All-zip (λ a. All (λ b. clash tree a b ≡ false) tree.rows) (MayClash folder name tree)
        tree.rows h facts)

-- If no two folders of one parent have the same name, and the id of the folder is its own, then this
-- holds after any PATCH of a folder's name, whether it is saved or refused.
pub patch_name-IsNamed :
    (caller : Caller) (folder_id name : ℕ) (tree : Tree) (folder : FolderRow)
    → find folder_id tree.rows ≡ some folder
    → All (IsOnly folder) tree.rows
    → IsNamed tree
    → IsNamed (after tree (patch_name caller folder_id name tree))
unfolding patch_name
patch_name-IsNamed caller folder_id name tree folder found only h =
    rw found (elim (Bool-cases (caller.may_reach folder)) [
      | inr other ↦ rw other h
      | inl mine ↦ elim (Option-cases (validate_name tree folder)) [
        | inr (refusal, top) ↦ rw (mine, top) h
        | inl below ↦ elim (Option-cases (validate (some folder.id) folder.parent_id name tree)) [
          | inr (refusal, taken) ↦ rw (mine, below, taken) h
          | inl free ↦ rw (mine, below, free) (set_name-IsNamed folder name tree free only h)
        ]
      ]
    ])
