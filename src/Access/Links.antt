-- ===== src/Access/Links.antt =====
-- The permissions on links, and what the list of a user's links shows.
use perma.Prelude.{
  ℕ, ◌≤◌, ◌≡◌, ◌↔◌, refl, Bool, true, false, ◌&&◌, ◌||◌, List, [], ◌∷◌, arith, same_key, truthy,
  any_of, some,
}
use perma.Access.{
  Organizations, User, Folder, Link, key_in_get_orgs, folder_filter, link_filter, can_edit,
  can_view, can_delete, can_toggle_private, user_may_undo,
}

-- The folder is sponsored by the user's registrar.
abbrev pub sponsored_by_own : User → Folder → Bool
sponsored_by_own user folder =
    truthy user.registrar_id && same_key folder.sponsored_by_id user.registrar_id

abbrev listed_folder : Organizations → User → Folder → Bool
listed_folder table user folder =
    same_key folder.owned_by_id (some user.pk) || key_in_get_orgs table user folder.organization_id

any_of_or :
    (table : Organizations) (user : User) (folders : List Folder)
    → user.is_staff ≡ false
    → any_of (folder_filter table user) folders
      ≡ (any_of (listed_folder table user) folders || any_of (sponsored_by_own user) folders)
unfolding folder_filter
any_of_or table user [] s = refl
any_of_or table user (folder ∷ folders) s = ground (arith, any_of_or table user folders s)

-- A user who is neither anonymous nor staff may edit the links of the list of links, and beyond
-- them exactly those in a folder that the user's registrar sponsors.
pub can_edit-eq-link_filter :
    (table : Organizations) (user : User) (link : Link)
    → user.is_anonymous ≡ false
    → user.is_staff ≡ false
    → can_edit table user link
      ≡ (link_filter table user link || any_of (sponsored_by_own user) link.folders)
unfolding can_edit link_filter
can_edit-eq-link_filter table user link known s =
    ground (arith, any_of_or table user link.folders s)

-- Who may delete a link or change its privacy may edit it, and who may edit it may view it.
pub permissions_nested :
    (table : Organizations) (now : ℕ) (user : User) (link : Link)
    → (can_delete table now user link
        ≡ (can_delete table now user link && can_edit table user link))
      × (can_toggle_private table user link
          ≡ (can_toggle_private table user link && can_edit table user link))
      × (can_edit table user link ≡ (can_edit table user link && can_view table user link))
unfolding can_delete can_toggle_private can_view
permissions_nested table now user link = (ground arith, ground arith, ground arith)

-- An editor may delete a link until its archive time, and never after, and no link twice.
pub can_delete_window :
    (table : Organizations) (now : ℕ) (user : User) (link : Link)
    → can_edit table user link ≡ true
    → (can_delete table now user link ≡ true)
      ↔ ((link.user_deleted ≡ false) × (now ≤ link.archive_timestamp))
unfolding can_delete
can_delete_window table now user link e =
    (λ h. (ground arith, ground arith), λ (kept, early). ground arith)

-- Of a private link whose reason is not one that users may undo, exactly the staff members who may
-- edit it can change the privacy.
pub can_toggle_private_reason :
    (table : Organizations) (user : User) (link : Link)
    → link.is_private ≡ true
    → user_may_undo table link.private_reason ≡ false
    → (can_toggle_private table user link ≡ (can_edit table user link && user.is_staff))
unfolding can_toggle_private
can_toggle_private_reason table user link p r = ground arith
