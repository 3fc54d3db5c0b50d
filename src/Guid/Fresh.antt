-- ===== src/Guid/Fresh.antt =====
-- The choice of a new name: what is chosen, and when no name is found.
use mathlib.Core.Path.{subst}
use perma.Prelude.{
  ℕ, zero, suc, ◌+◌, ◌≤◌, ◌<◌, ◌≡◌, ◌↔◌, refl, ap, ◌∙◌, Bool, true, false, not, ◌&&◌, inl, inr,
  none, some, List, [], ◌∷◌, ◌++◌, arith, ◌==◌, length, take, drop, All, Bool-cases, any_of, ==_iff,
}
use perma.Guid.{
  is_guid_code, upper, hyphen, stripped, hyphenated, is_legacy, get_canonical_guid,
  starts_with_four_letters, pick_guid, max_attempts, new_guid, in_guid_character_set,
}

-- Eight characters of the set, as `Link.save` draws them.
abbrev pub IsDraw : List ℕ → Type 0
IsDraw text = (length text ≡ 8) × All (λ c. in_guid_character_set c ≡ true) text

in_set_kept : (c : ℕ) → in_guid_character_set c ≡ true → (upper c ≡ c) × (is_guid_code c ≡ true)
in_set_kept c h = ground arith

stripped-draw :
    (text : List ℕ) → All (λ c. in_guid_character_set c ≡ true) text → stripped text ≡ text
stripped-draw [] h = refl
stripped-draw (c ∷ text) (h, hs) =
    let (same, kept) = in_set_kept c h in
    rw same (rw kept (ap (λ r. c ∷ r) (stripped-draw text hs)))

hyphenated_eight :
    (text : List ℕ) → length text ≡ 8 → hyphenated text ≡ take 4 text ++ (hyphen ∷ drop 4 text)
hyphenated_eight (a ∷ b ∷ c ∷ d ∷ e ∷ f ∷ g ∷ h ∷ []) n = refl
hyphenated_eight _ n = absurd (omega arith)

draw_not_legacy : (text : List ℕ) → length text ≡ 8 → is_legacy text ≡ false
draw_not_legacy text n = elim (Bool-cases (any_of (λ c. c == hyphen) text)) [
  | inl hyphenated_already ↦ rw hyphenated_already
  | inr plain ↦ rw (plain, n)
]

-- The canonical form of eight drawn characters is them with a hyphen in the middle.
pub get_canonical_guid_draw :
    (text : List ℕ) → IsDraw text → get_canonical_guid text ≡ take 4 text ++ (hyphen ∷ drop 4 text)
unfolding get_canonical_guid
get_canonical_guid_draw text (n, h) =
    rw (draw_not_legacy text n) (rw (stripped-draw text h) (hyphenated_eight text n))

module _ (draw : ℕ → List ℕ) (exists : List ℕ → Bool) where
  -- The test that ends the loop, at one attempt.
  abbrev pub is_free : ℕ → Bool
  is_free i =
      not (starts_with_four_letters (get_canonical_guid (draw i)))
      && not (exists (get_canonical_guid (draw i)))

  pick_guid-some :
      (attempts i : ℕ) {guid : List ℕ}
      → pick_guid attempts draw exists i ≡ some guid
      → (j : ℕ) × (i ≤ j)
        × (j < i + attempts)
        × (guid ≡ get_canonical_guid (draw j))
        × (is_free j ≡ true)
  unfolding pick_guid
  pick_guid-some zero i e = cc
  pick_guid-some (suc attempts) i {guid} e = elim (Bool-cases (is_free i)) [
    | inl free ↦ (i, omega arith, omega arith, ground arith, free)
    | inr taken ↦
        let (j, low, high, same, free) =
          pick_guid-some attempts (suc i) {guid = guid} (rw taken at e) in
        (j, omega arith, omega arith, same, free)
  ]

  pick_guid-none :
      (attempts i : ℕ)
      → ((j : ℕ) → i ≤ j → j < i + attempts → is_free j ≡ false)
      → pick_guid attempts draw exists i ≡ none
  unfolding pick_guid
  pick_guid-none zero i h = refl
  pick_guid-none (suc attempts) i h =
      rw (h i (omega arith) (omega arith))
        (pick_guid-none attempts (suc i) (λ j low high. h j (omega arith) (omega arith)))

  pick_guid-none_only :
      (attempts i : ℕ)
      → pick_guid attempts draw exists i ≡ none
      → (j : ℕ) → i ≤ j
      → j < i + attempts
      → is_free j ≡ false
  unfolding pick_guid
  pick_guid-none_only zero i e j low high = absurd (omega arith)
  pick_guid-none_only (suc attempts) i e j low high = elim (Bool-cases (is_free i)) [
    | inl free ↦ absurd (ground arith)
    | inr taken ↦ elim (Bool-cases (i == j)) [
      | inl here ↦ subst (λ k. is_free k ≡ false) ((==_iff i j).0 here) taken
      | inr later ↦
          pick_guid-none_only attempts (suc i) (rw taken at e) j (ground arith) (omega arith)
    ]
  ]

  -- If the draws are eight characters of the set, a name that is chosen is four characters, a hyphen
  -- and four characters of one of the hundred draws; it is in no use, and does not begin with four
  -- letters.
  pub new_guid-some :
      ((i : ℕ) → IsDraw (draw i))
      → (guid : List ℕ) → new_guid draw exists ≡ some guid
      → (j : ℕ) × (j < 100)
        × (guid ≡ take 4 (draw j) ++ (hyphen ∷ drop 4 (draw j)))
        × (starts_with_four_letters guid ≡ false)
        × (exists guid ≡ false)
  unfolding new_guid
  new_guid-some drawn guid e =
      let (j, low, high, same, free) = pick_guid-some max_attempts 0 {guid = guid} e in
      (
        j,
        omega arith,
        same ∙ get_canonical_guid_draw (draw j) (drawn j),
        rw same (ground arith),
        rw same (ground arith),
      )

  -- The exception is raised exactly when each of the hundred draws is refused.
  pub new_guid-none : (new_guid draw exists ≡ none) ↔ ((j : ℕ) → j < 100 → is_free j ≡ false)
  unfolding new_guid
  new_guid-none = (
    λ e j h. pick_guid-none_only max_attempts 0 e j (omega arith) (omega arith),
    λ h. pick_guid-none max_attempts 0 (λ j low high. h j (omega arith)),
  )
