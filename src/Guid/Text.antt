-- ===== src/Guid/Text.antt =====
-- Texts in pieces: joined, sliced, and stripped.
use mathlib.Core.Path.{◌≡⟨◌⟩◌, ◌∎}
use mathlib.Core.List.{flatten, reverse-append, append-nil}
use perma.Prelude.{
  ℕ, zero, suc, ◌-◌, ◌≤◌, ◌≡◌, refl, ap, ◌∙◌, true, false, List, [], ◌∷◌, ◌++◌, reverse, arith,
  take, drop, Bool-cases, inl, inr, sym, flatten-append,
}
use perma.Guid.{is_guid_code, upper, join, stripped, slice, guid_parts}

pub stripped-append : (xs ys : List ℕ) → stripped (xs ++ ys) ≡ stripped xs ++ stripped ys
stripped-append [] ys = refl
stripped-append (x ∷ xs) ys = ground (arith, stripped-append xs ys)

-- Stripping is done once.
-- A code that is kept is its own capital.
upper_kept : (c : ℕ) → is_guid_code c ≡ true → upper c ≡ c
upper_kept c h = ground arith

pub stripped-stripped : (xs : List ℕ) → stripped (stripped xs) ≡ stripped xs
stripped-stripped [] = refl
stripped-stripped (x ∷ xs) = elim (Bool-cases (is_guid_code (upper x))) [
  | inl kept ↦
      rw kept
        (rw (upper_kept (upper x) kept) (rw kept (ap (λ r. upper x ∷ r) (stripped-stripped xs))))
  | inr dropped ↦ rw dropped (stripped-stripped xs)
]

take_nil : (n : ℕ) → take {A = ℕ} n [] ≡ []
take_nil zero = refl
take_nil (suc n) = refl

pub take-append-slice :
    (start stop : ℕ) (text : List ℕ)
    → start ≤ stop
    → take start text ++ slice text start stop ≡ take stop text
take-append-slice zero stop text h = ap (λ n. take n text) (omega arith)
take-append-slice (suc start) zero text h = absurd (omega arith)
take-append-slice (suc start) (suc stop) [] h = take_nil (suc stop - suc start)
take-append-slice (suc start) (suc stop) (x ∷ text) h =
    ap (λ r. x ∷ r)
      (ap (λ n. take start text ++ take n (drop start text)) (omega arith)
        ∙ take-append-slice start stop text (omega arith))

-- The chunks from the end, put back in order, are the text again.
pub flatten-guid_parts :
    (fuel : ℕ) (text : List ℕ) (n : ℕ)
    → n ≤ fuel
    → flatten (reverse (guid_parts fuel text n)) ≡ take n text
unfolding flatten
flatten-guid_parts fuel text zero h = refl
flatten-guid_parts zero text (suc n) h = absurd (omega arith)
flatten-guid_parts (suc fuel) text (suc n) h =
    flatten (reverse (slice text (suc n - 4) (suc n) ∷ guid_parts fuel text (suc n - 4)))
    ≡⟨ ap flatten
        (reverse-append (slice text (suc n - 4) (suc n) ∷ []) (guid_parts fuel text (suc n - 4))) ⟩
      flatten (reverse (guid_parts fuel text (suc n - 4)) ++ (slice text (suc n - 4) (suc n) ∷ []))
    ≡⟨ flatten-append (reverse (guid_parts fuel text (suc n - 4)))
        (slice text (suc n - 4) (suc n) ∷ [])
      ∙ ap (λ r. flatten (reverse (guid_parts fuel text (suc n - 4))) ++ r)
          (append-nil (slice text (suc n - 4) (suc n))) ⟩
      flatten (reverse (guid_parts fuel text (suc n - 4))) ++ slice text (suc n - 4) (suc n)
    ≡⟨ ap (λ r. r ++ slice text (suc n - 4) (suc n))
        (flatten-guid_parts fuel text (suc n - 4) (omega arith)) ⟩
      take (suc n - 4) text ++ slice text (suc n - 4) (suc n)
    ≡⟨ take-append-slice (suc n - 4) (suc n) text (omega arith) ⟩ take (suc n) text ∎

-- The separator is stripped away with everything that is not kept.
pub stripped-join :
    (separator : ℕ) (parts : List (List ℕ))
    → is_guid_code (upper separator) ≡ false
    → stripped (join separator parts) ≡ stripped (flatten parts)
unfolding flatten
stripped-join separator [] h = refl
stripped-join separator (part ∷ []) h = ap stripped (sym (append-nil part))
stripped-join separator (part ∷ next ∷ parts) h =
    stripped-append part (separator ∷ join separator (next ∷ parts))
    ∙ rw h (ap (λ r. stripped part ++ r) (stripped-join separator (next ∷ parts) h))
    ∙ sym (stripped-append part (flatten (next ∷ parts)))
