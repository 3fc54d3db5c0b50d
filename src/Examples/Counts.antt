-- ===== src/Examples/Counts.antt =====
-- Two users, two organizations of one registrar, and their links.
use perma.Prelude.{
  refl, false, none, some, [], ◌∷◌, ◌++◌, arith, ◌==◌, ◌||◌, if◌then◌else◌, map, true,
}
use perma.LinkCounts.{
  UserRow, OrganizationRow, RegistrarRow, Counts, OwnedLink, link_created, link_deleted,
  adjust_owner_link_counts, save_registrar,
}
use perma.LinkCounts.{FolderOwners, Acting, move_to_folder_for_user, safe_delete}
use perma.LinkCounts.Moves.{counted_links, safe_delete-move_to_folder_for_user}
use perma.LinkCounts.Census.{IsAccurate}
use perma.LinkCounts.Relocation.{
  link_created-IsAccurate, link_deleted-IsAccurate, adjust_owner_link_counts-IsAccurate, give,
}
use perma.LinkCounts.Registrar.{save_registrar-IsAccurate}

abbrev new_user : UserRow
new_user = record { link_count = 0 }

abbrev new_organization : OrganizationRow
new_organization = record { registrar_id = some 7; link_count = 0; user_deleted = false }

abbrev new_registrar : RegistrarRow
new_registrar = record { link_count = 0; sponsored_link_count = 0 }

abbrev new_counts : Counts
new_counts = record {
  users = λ id. if id == 1 then some new_user else none;
  organizations = λ id. if id == 3 || id == 4 then some new_organization else none;
  registrars = λ id. if id == 7 || id == 8 then some new_registrar else none;
}

new_counts-IsAccurate : IsAccurate [] new_counts
new_counts-IsAccurate = (
  (λ id row e. ground arith),
  record {
    organization_counted = λ id row e shown. ground arith;
    registrar_counted = λ id row e. ground arith;
    sponsored_counted = λ id row e. ground arith;
    no_organization_zero = refl;
    no_registrar_zero = refl;
  },
)

abbrev link : OwnedLink
link = record { created_by_id = some 1; organization_id = some 3; sponsored_by_id = none }

one_link-IsAccurate : IsAccurate (link ∷ []) (link_created link new_counts)
one_link-IsAccurate = link_created-IsAccurate link [] new_counts refl new_counts-IsAccurate

link_deleted-IsAccurate_example : IsAccurate [] (link_deleted link (link_created link new_counts))
link_deleted-IsAccurate_example =
    link_deleted-IsAccurate link [] (link_created link new_counts) one_link-IsAccurate

save_registrar-IsAccurate_example :
    IsAccurate (link ∷ []) (save_registrar 3 (some 8) (link_created link new_counts))
save_registrar-IsAccurate_example =
    save_registrar-IsAccurate 3 (some 8) (link ∷ []) (link_created link new_counts)
      one_link-IsAccurate

-- The link moves to the other organization's folder.
adjust_owner_link_counts-IsAccurate_example :
    IsAccurate
      (map (give (some 4) none) (link ∷ []) ++ [])
      (adjust_owner_link_counts 1 (some 3) (some 4) none none (link_created link new_counts))
adjust_owner_link_counts-IsAccurate_example =
    adjust_owner_link_counts-IsAccurate (some 3) (some 4) none none (link ∷ []) []
      (link_created link new_counts) ((refl, refl), tt) one_link-IsAccurate

-- The link's creator has no bonus link left; the link is one, and moves to the organization's folder.
abbrev acting : Acting
acting = record {
  link = record { owned = link; bonus_link = true; user_deleted = false };
  bonus_links = some 0;
  counts = link_created link new_counts;
}

abbrev target : FolderOwners
target = record { organization_id = some 4; sponsored_by_id = none }

safe_delete-move_to_folder_for_user_example :
    (let moved = move_to_folder_for_user target acting in
      IsAccurate (counted_links moved.link []) moved.counts
      × IsAccurate [] (safe_delete moved).counts)
safe_delete-move_to_folder_for_user_example =
    safe_delete-move_to_folder_for_user target [] acting one_link-IsAccurate
