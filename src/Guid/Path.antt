-- ===== src/Guid/Path.antt =====
-- The folder of a link's files in storage, after its name.
use mathlib.Core.List.{flatten}
use perma.Prelude.{
  ℕ, suc, ◌-◌, ◌*◌, ◌/◌, ◌≡◌, refl, ap, List, [], ◌∷◌, ◌++◌, arith, length, drop, All,
}
use perma.Guid.{join, pairs, all_but_last, alphanumerics, guid_as_path}

-- The path's folders, before they are joined.
abbrev pub folders_of : List ℕ → List (List ℕ)
folders_of guid = all_but_last (pairs (alphanumerics guid))

all_but_last-pairs :
    (text : List ℕ)
    → (flatten (all_but_last (pairs text)) ++ drop ((length text - 1) / 2 * 2) text ≡ text)
      × All (λ folder. length folder ≡ 2) (all_but_last (pairs text))
unfolding flatten
all_but_last-pairs [] = (refl, tt)
all_but_last-pairs (a ∷ []) = (refl, tt)
all_but_last-pairs (a ∷ b ∷ []) = (refl, tt)
all_but_last-pairs (a ∷ b ∷ c ∷ []) = (refl, (refl, tt))
all_but_last-pairs (a ∷ b ∷ c ∷ d ∷ text) =
    let (same, twos) = all_but_last-pairs (c ∷ d ∷ text) in
    let e : (suc (suc (suc (suc (length text)))) - 1) / 2 * 2
        ≡ suc (suc ((suc (suc (length text)) - 1) / 2 * 2)) =
      omega arith in
    (rw e (ap (λ r. a ∷ b ∷ r) same), (refl, twos))

-- Every folder's name has two characters, and the folders in order are the digits and letters of the
-- name, less the one or two that are left for the last, unused part.
pub guid_as_path_folders :
    (guid : List ℕ)
    → (guid_as_path guid ≡ join b'/' (folders_of guid))
      × (flatten (folders_of guid)
            ++ drop ((length (alphanumerics guid) - 1) / 2 * 2) (alphanumerics guid)
          ≡ alphanumerics guid)
      × All (λ folder. length folder ≡ 2) (folders_of guid)
unfolding guid_as_path
guid_as_path_folders guid =
    let (same, twos) = all_but_last-pairs (alphanumerics guid) in (refl, same, twos)
