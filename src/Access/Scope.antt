-- ===== src/Access/Scope.antt =====
-- Whom a user may look up: `shares_scope_with_user`.
use mathlib.Core.Path.{subst}
use perma.Prelude.{
  ℕ, ◌≡◌, Bool, true, ◌&&◌, inl, inr, List, [], ◌∷◌, arith, ◌==◌, any_of, Bool-cases, ==_iff,
  ==_refl, ◌↔◌, sym,
}
use perma.Access.{
  Organizations, User, contains, is_live, is_organization_user, live_organizations,
  shares_scope_with_user,
}

module _ (table : Organizations) where
  -- The two have a live organization in common.
  abbrev meets : List ℕ → List ℕ → Bool
  meets mine theirs = any_of (λ id. contains theirs id) (live_organizations table mine)

  meets_here :
      (id : ℕ) (mine theirs : List ℕ)
      → contains mine id ≡ true
      → is_live table id ≡ true
      → contains theirs id ≡ true
      → meets mine theirs ≡ true
  meets_here id [] theirs m l t = cc
  meets_here id (first ∷ mine) theirs m l t = elim (Bool-cases (first == id)) [
    | inl same ↦
        let e : id ≡ first = sym ((==_iff first id).0 same) in
        let l' = subst (λ key. is_live table key ≡ true) e l in
        let t' = subst (λ key. contains theirs key ≡ true) e t in ground arith
    | inr other ↦ ground (arith, meets_here id mine theirs)
  ]

  meets_found :
      (mine theirs : List ℕ)
      → meets mine theirs ≡ true
      → (id : ℕ) × (contains mine id ≡ true)
        × (is_live table id ≡ true)
        × (contains theirs id ≡ true)
  meets_found [] theirs h = cc
  meets_found (first ∷ mine) theirs h =
      elim (Bool-cases (is_live table first && contains theirs first)) [
        | inl here ↦ (first, rw (==_refl first), ground arith, ground arith)
        | inr later ↦
            let (id, m, l, t) = meets_found mine theirs (ground arith) in (id, ground arith, l, t)
      ]

  -- An organization user shares the scope of another user exactly when some organization that is not
  -- deleted has them both.
  pub shares_scope_with_user_members :
      (user other : User)
      → is_organization_user table user ≡ true
      → (shares_scope_with_user table user other ≡ true) ↔ (
          (id : ℕ) × (contains user.organizations id ≡ true)
          × (is_live table id ≡ true)
          × (contains other.organizations id ≡ true))
  unfolding shares_scope_with_user
  shares_scope_with_user_members user other u = rw u (
    meets_found user.organizations other.organizations,
    λ (id, m, l, t). meets_here id user.organizations other.organizations m l t,
  )
