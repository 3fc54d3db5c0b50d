-- ===== src/LinkCounts/Relocation.antt =====
-- The counts stay accurate when links are created, deleted or given to other owners, and when an
-- organization changes its registrar.
use perma.Prelude.{
  ℕ, ◌+◌, ◌*◌, ◌≡◌, refl, Bool, Option, none, some, List, [], ◌∷◌, ◌++◌, map, arith, same_key,
  indicator, count_if, count_if-append, length, All, inl, inr, Option-cases, ap, ◌∙◌, ◌-◌,
}
use perma.LinkCounts.{
  UserRow, Table, Counts, OwnedLink, registrar_of, adjust_owner_link_counts,
  increment_user_link_count, decrement_user_link_count, link_created, link_deleted,
}
use perma.LinkCounts.Census.{
  IsAccurate, CountsUsers, created_by, in_organization, under_registrar, sponsored_by,
}
use perma.LinkCounts.Accuracy.{IsRebalanced, adjust_owner_link_counts-CountsOwners}

increment_row :
    (key : Option ℕ) (users : Table UserRow) (id : ℕ) (row : UserRow)
    → increment_user_link_count key users id ≡ some row
    → (old : UserRow) × (users id ≡ some old)
      × (row.link_count ≡ indicator (same_key key (some id)) + old.link_count)
unfolding increment_user_link_count
increment_row none users id row e = (row, e, omega arith)
increment_row (some k) users id row e = elim (Option-cases (users id)) [
  | inl missing ↦ absurd (ground arith)
  | inr (old, found) ↦ (old, found, ground arith)
]

increment-CountsUsers :
    (link : OwnedLink) (links : List OwnedLink) (users : Table UserRow)
    → CountsUsers links users
    → CountsUsers (link ∷ links) (increment_user_link_count link.created_by_id users)
increment-CountsUsers link links users h id row e =
    let (old, found, counted) = increment_row link.created_by_id users id row e in
    omega (arith, counted, h id old found)

creation-IsRebalanced :
    (link : OwnedLink) (links : List OwnedLink)
    → link.sponsored_by_id ≡ none
    → IsRebalanced 1 none link.organization_id none none links (link ∷ links)
creation-IsRebalanced link links unsponsored = record {
  organizations_moved = λ id. omega arith;
  registrars_moved = λ table id. omega arith;
  sponsors_moved = λ id. ground arith;
}

deletion-IsRebalanced :
    (link : OwnedLink) (links : List OwnedLink)
    → IsRebalanced 1 link.organization_id none link.sponsored_by_id none (link ∷ links) links
deletion-IsRebalanced link links = record {
  organizations_moved = λ id. omega arith;
  registrars_moved = λ table id. omega arith;
  sponsors_moved = λ id. omega arith;
}

-- If the counts are accurate, they are accurate after a new link, which stands in no sponsored
-- folder yet, is counted.
pub link_created-IsAccurate :
    (link : OwnedLink) (links : List OwnedLink) (s : Counts)
    → link.sponsored_by_id ≡ none
    → IsAccurate links s
    → IsAccurate (link ∷ links) (link_created link s)
unfolding link_created
link_created-IsAccurate link links s unsponsored (users, owners) =
    let t = record s { users = increment_user_link_count link.created_by_id s.users } in
    let (owners', same) =
      adjust_owner_link_counts-CountsOwners (creation-IsRebalanced link links unsponsored) t
        owners in
    (rw same (increment-CountsUsers link links s.users users), owners')

decrement_row :
    (key : Option ℕ) (users : Table UserRow) (id : ℕ) (row : UserRow)
    → decrement_user_link_count key users id ≡ some row
    → (old : UserRow) × (users id ≡ some old)
      × (row.link_count ≡ old.link_count - indicator (same_key key (some id)))
unfolding decrement_user_link_count
decrement_row none users id row e = (row, e, omega arith)
decrement_row (some k) users id row e = elim (Option-cases (users id)) [
  | inl missing ↦ absurd (ground arith)
  | inr (old, found) ↦ (old, found, ground arith)
]

decrement-CountsUsers :
    (link : OwnedLink) (links : List OwnedLink) (users : Table UserRow)
    → CountsUsers (link ∷ links) users
    → CountsUsers links (decrement_user_link_count link.created_by_id users)
decrement-CountsUsers link links users h id row e =
    let (old, found, counted) = decrement_row link.created_by_id users id row e in
    omega (arith, counted, h id old found)

-- If the counts are accurate, they are accurate after one of the links is deleted and counted no
-- longer.
pub link_deleted-IsAccurate :
    (link : OwnedLink) (links : List OwnedLink) (s : Counts)
    → IsAccurate (link ∷ links) s
    → IsAccurate links (link_deleted link s)
unfolding link_deleted
link_deleted-IsAccurate link links s (users, owners) =
    let t = record s { users = decrement_user_link_count link.created_by_id s.users } in
    let (owners', same) =
      adjust_owner_link_counts-CountsOwners (deletion-IsRebalanced link links) t owners in
    (rw same (decrement-CountsUsers link links s.users users), owners')

-- A link given to other owners, as a move of its folder or of itself does.
abbrev pub give : Option ℕ → Option ℕ → OwnedLink → OwnedLink
give organization_id sponsored_by_id link = record link {
  organization_id = organization_id;
  sponsored_by_id = sponsored_by_id;
}

-- The links all stand in one organization (or in none), and under one sponsor (or none).
abbrev pub OwnedBy : Option ℕ → Option ℕ → OwnedLink → Type 0
OwnedBy organization_id sponsored_by_id link =
    (link.organization_id ≡ organization_id) × (link.sponsored_by_id ≡ sponsored_by_id)

module _ (o o' p p' : Option ℕ) where
  given_counts :
      (moved : List OwnedLink) (f : Option ℕ → Bool) (g : Option ℕ → Bool)
      → All (OwnedBy o p) moved
      → (count_if (λ link. f link.organization_id) (map (give o' p') moved)
            + indicator (f o) * length moved
          ≡ count_if (λ link. f link.organization_id) moved + indicator (f o') * length moved)
        × (count_if (λ link. g link.sponsored_by_id) (map (give o' p') moved)
              + indicator (g p) * length moved
            ≡ count_if (λ link. g link.sponsored_by_id) moved + indicator (g p') * length moved)
  given_counts [] f g h = (omega arith, omega arith)
  given_counts (link ∷ moved) f g ((eo, ep), h) =
      let (ih, ih') = given_counts moved f g h in rw (eo, ep) (grind arith, grind arith)

  given-IsRebalanced :
      (moved rest : List OwnedLink)
      → All (OwnedBy o p) moved
      → IsRebalanced (length moved) o o' p p' (moved ++ rest) (map (give o' p') moved ++ rest)
  given-IsRebalanced moved rest h = record {
    organizations_moved = λ id.
        rw
          (
            count_if-append (in_organization id) moved rest,
            count_if-append (in_organization id) (map (give o' p') moved) rest,
          )
          (omega (
            arith,
            (given_counts moved (λ key. same_key key (some id)) (λ key. same_key key (some id))
                h).0,
          ));
    registrars_moved = λ table id.
        rw
          (
            count_if-append (under_registrar table id) moved rest,
            count_if-append (under_registrar table id) (map (give o' p') moved) rest,
          )
          (omega (
            arith,
            (given_counts moved (λ key. same_key (registrar_of table key) (some id))
                (λ key. same_key key (some id)) h).0,
          ));
    sponsors_moved = λ id.
        rw
          (
            count_if-append (sponsored_by id) moved rest,
            count_if-append (sponsored_by id) (map (give o' p') moved) rest,
          )
          (omega (
            arith,
            (given_counts moved (λ key. same_key key (some id)) (λ key. same_key key (some id))
                h).1,
          ));
  }

  given_created :
      (moved : List OwnedLink) (id : ℕ)
      → count_if (created_by id) (map (give o' p') moved) ≡ count_if (created_by id) moved
  given_created [] id = refl
  given_created (link ∷ moved) id =
      ap (λ n. indicator (created_by id link) + n) (given_created moved id)

  given-CountsUsers :
      (moved rest : List OwnedLink) (users : Table UserRow)
      → CountsUsers (moved ++ rest) users
      → CountsUsers (map (give o' p') moved ++ rest) users
  given-CountsUsers moved rest users h id row e =
      rw (count_if-append (created_by id) (map (give o' p') moved) rest, given_created moved id)
        (h id row e ∙ count_if-append (created_by id) moved rest)

  -- If the counts are accurate, they are accurate after any number of links with the same
  -- organization and sponsor are given to another organization and sponsor.
  pub adjust_owner_link_counts-IsAccurate :
      (moved rest : List OwnedLink) (s : Counts)
      → All (OwnedBy o p) moved
      → IsAccurate (moved ++ rest) s
      → IsAccurate
          (map (give o' p') moved ++ rest)
          (adjust_owner_link_counts (length moved) o o' p p' s)
  adjust_owner_link_counts-IsAccurate moved rest s owned (users, owners) =
      let (owners', same) =
        adjust_owner_link_counts-CountsOwners (given-IsRebalanced moved rest owned) s owners in
      (rw same (given-CountsUsers moved rest s.users users), owners')
