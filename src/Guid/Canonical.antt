-- ===== src/Guid/Canonical.antt =====
-- The canonical form of a name: what it keeps, and that taking it twice is taking it once.
use mathlib.Core.List.{reverse-append}
use perma.Prelude.{
  ℕ, zero, suc, ◌-◌, ◌≤◌, ◌<◌, ◌≡◌, refl, ap, ◌∙◌, true, false, inl, inr, List, [], ◌∷◌, ◌++◌,
  reverse, arith, leb, ◌==◌, length, take, any_of, Bool-cases,
}
use perma.Guid.{
  hyphen, join, stripped, slice, guid_parts, hyphenated, is_legacy, repair_zero, get_canonical_guid,
}
use perma.Guid.Text.{stripped-stripped, stripped-join, flatten-guid_parts}

take-length : (text : List ℕ) → take (length text) text ≡ text
take-length [] = refl
take-length (c ∷ text) = ap (λ r. c ∷ r) (take-length text)

stripped-hyphenated : (text : List ℕ) → stripped (hyphenated text) ≡ stripped text
stripped-hyphenated text =
    stripped-join hyphen (reverse (guid_parts (length text) text (length text))) refl
    ∙ ap stripped
        (flatten-guid_parts (length text) text (length text) (omega arith) ∙ take-length text)

-- A name that is not an old one keeps its digits and letters, in order and in capitals.
pub get_canonical_guid-stripped :
    (guid : List ℕ) → is_legacy guid ≡ false → stripped (get_canonical_guid guid) ≡ stripped guid
unfolding get_canonical_guid
get_canonical_guid-stripped guid h =
    rw h (stripped-hyphenated (stripped guid) ∙ stripped-stripped guid)

has_hyphen_append : (xs ys : List ℕ) → any_of (λ c. c == hyphen) (xs ++ (hyphen ∷ ys)) ≡ true
has_hyphen_append [] ys = refl
has_hyphen_append (x ∷ xs) ys = ground (arith, has_hyphen_append xs ys)

-- Two parts or more are joined by a hyphen.
has_hyphen-join :
    (parts : List (List ℕ)) (p q : List ℕ)
    → any_of (λ c. c == hyphen) (join hyphen (parts ++ (p ∷ q ∷ []))) ≡ true
has_hyphen-join [] p q = has_hyphen_append p q
has_hyphen-join (part ∷ []) p q = has_hyphen_append part (join hyphen (p ∷ q ∷ []))
has_hyphen-join (part ∷ next ∷ parts) p q =
    has_hyphen_append part (join hyphen ((next ∷ parts) ++ (p ∷ q ∷ [])))

hyphenated_long :
    (fuel : ℕ) (text : List ℕ) (n : ℕ)
    → 4 < n
    → n ≤ fuel
    → any_of (λ c. c == hyphen) (join hyphen (reverse (guid_parts fuel text n))) ≡ true
hyphenated_long fuel text zero h k = absurd (omega arith)
hyphenated_long zero text (suc n) h k = absurd (omega arith)
hyphenated_long (suc zero) text (suc n) h k = absurd (omega arith)
hyphenated_long (suc (suc fuel)) text (suc n) h k =
    let e : suc n - 4 ≡ suc (suc n - 5) = omega arith in
    rw e (
      rw
        (reverse-append
          (slice text (suc (suc n - 5)) (suc n)
            ∷ slice text (suc (suc n - 5) - 4) (suc (suc n - 5))
            ∷ [])
          (guid_parts fuel text (suc (suc n - 5) - 4)))
        (has_hyphen-join (reverse (guid_parts fuel text (suc (suc n - 5) - 4)))
          (slice text (suc (suc n - 5) - 4) (suc (suc n - 5)))
          (slice text (suc (suc n - 5)) (suc n))))

hyphenated_short : (text : List ℕ) → length text ≤ 4 → length (hyphenated text) ≤ 4
hyphenated_short [] h = omega arith
hyphenated_short (a ∷ []) h = omega arith
hyphenated_short (a ∷ b ∷ []) h = omega arith
hyphenated_short (a ∷ b ∷ c ∷ []) h = omega arith
hyphenated_short (a ∷ b ∷ c ∷ d ∷ []) h = omega arith
hyphenated_short (a ∷ b ∷ c ∷ d ∷ e ∷ text) h = absurd (omega arith)

hyphenated-is_legacy : (text : List ℕ) → is_legacy (hyphenated text) ≡ false
hyphenated-is_legacy text = elim (Bool-cases (leb (length text) 4)) [
  | inl short ↦ ground (arith, hyphenated_short text (ground arith))
  | inr long ↦ rw (hyphenated_long (length text) text (length text) (ground arith) (omega arith))
]

repair_zero-is_legacy : (guid : List ℕ) → is_legacy (repair_zero guid) ≡ is_legacy guid
repair_zero-is_legacy [] = refl
repair_zero-is_legacy (c ∷ guid) = ground arith

repair_zero-repair_zero : (guid : List ℕ) → repair_zero (repair_zero guid) ≡ repair_zero guid
repair_zero-repair_zero [] = refl
repair_zero-repair_zero (c ∷ guid) = ground arith

-- The canonical form of a canonical form is itself, for old and new names alike.
pub get_canonical_guid-get_canonical_guid :
    (guid : List ℕ) → get_canonical_guid (get_canonical_guid guid) ≡ get_canonical_guid guid
unfolding get_canonical_guid
get_canonical_guid-get_canonical_guid guid = elim (Bool-cases (is_legacy guid)) [
  | inl old ↦ rw (old, repair_zero-is_legacy guid) (rw old (repair_zero-repair_zero guid))
  | inr new ↦
      rw (new, hyphenated-is_legacy (stripped guid))
        (ap hyphenated (stripped-hyphenated (stripped guid) ∙ stripped-stripped guid))
]
