-- ===== src/LinkCounts/Moves.antt =====
-- Moving and deleting stored links keeps the counts accurate.
use perma.Prelude.{
  ℕ, ◌+◌, ◌≡◌, refl, Bool, true, false, List, [], ◌∷◌, if◌then◌else◌, or_else, indicator, arith,
  is_some,
}
use perma.LinkCounts.{
  Counts, adjust_owner_link_counts, OwnedLink, StoredLink, FolderOwners, Acting,
  move_to_folder_for_user, safe_delete, link_deleted,
}
use perma.LinkCounts.Census.{IsAccurate}
use perma.LinkCounts.Relocation.{adjust_owner_link_counts-IsAccurate, link_deleted-IsAccurate, give}

-- What a stored link adds to the links that are counted.
abbrev pub counted_links : StoredLink → List OwnedLink → List OwnedLink
counted_links link links = if link.user_deleted then links else link.owned ∷ links

-- A link's bonus and the user's bonus links, together.
abbrev pub bonus_total : Acting → ℕ
bonus_total a = indicator a.link.bonus_link + or_else a.bonus_links 0

moved-IsAccurate :
    (folder : FolderOwners) (links : List OwnedLink) (owned : OwnedLink) (s : Counts) (gone : Bool)
    → IsAccurate (if gone then links else owned ∷ links) s
    → IsAccurate
        (if gone then links else give folder.organization_id folder.sponsored_by_id owned ∷ links)
        (if gone
          then s
          else adjust_owner_link_counts 1 owned.organization_id folder.organization_id
              owned.sponsored_by_id folder.sponsored_by_id s)
moved-IsAccurate folder links owned s true h = h
moved-IsAccurate folder links owned s false h =
    adjust_owner_link_counts-IsAccurate owned.organization_id folder.organization_id
      owned.sponsored_by_id folder.sponsored_by_id (owned ∷ []) links s ((refl, refl), tt) h

deleted-IsAccurate :
    (links : List OwnedLink) (a : Acting) (gone : Bool)
    → IsAccurate (if gone then links else a.link.owned ∷ links) a.counts
    → IsAccurate links
        (if gone then a else record a {
          link = record (a.link) { user_deleted = true };
          counts = link_deleted a.link.owned a.counts;
        }).counts
deleted-IsAccurate links a true h = h
deleted-IsAccurate links a false h = link_deleted-IsAccurate a.link.owned links a.counts h

-- If the counts are accurate, they are accurate after a link, deleted or not, is moved to any
-- folder, and again after it is then deleted.
pub safe_delete-move_to_folder_for_user :
    (folder : FolderOwners) (links : List OwnedLink) (a : Acting)
    → IsAccurate (counted_links a.link links) a.counts
    → (let moved = move_to_folder_for_user folder a in
        IsAccurate (counted_links moved.link links) moved.counts
        × IsAccurate links (safe_delete moved).counts)
unfolding move_to_folder_for_user safe_delete
safe_delete-move_to_folder_for_user folder links a h =
    let moved = move_to_folder_for_user folder a in
    let accurate : IsAccurate (counted_links moved.link links) moved.counts =
      moved-IsAccurate folder links a.link.owned a.counts a.link.user_deleted h in
    (accurate, deleted-IsAccurate links moved moved.link.user_deleted accurate)

-- Moving a link loses no bonus link, given that its user has a number of them.
pub move_to_folder_for_user_bonus :
    (folder : FolderOwners) (a : Acting)
    → is_some a.bonus_links ≡ true
    → bonus_total (move_to_folder_for_user folder a) ≡ bonus_total a
unfolding move_to_folder_for_user
move_to_folder_for_user_bonus folder a h = ground arith
