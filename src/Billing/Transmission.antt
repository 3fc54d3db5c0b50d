-- ===== src/Billing/Transmission.antt =====
-- The transmissions of the payments service: `process_perma_payments_transmission`, `retrieve_fields` and
-- `is_valid_timestamp` of perma_web/perma/utils.py. Decryption with the decoding of JSON is a parameter.
use perma.Prelude.{
  Bool-cases, ap, ==_iff, ℕ, ◌+◌, ◌≡◌, ◌≤◌, refl, ◌∙◌, Bool, Option, none, some, List, [], ◌∷◌,
  arith, All, leb, ◌==◌, if◌then◌else◌, Option-cases, inl, inr, ==_refl, sym,
}
use mathlib.Core.Path.{subst}

-- Keys and values of decoded data.
abbrev pub Fields : Type 0
Fields = List (ℕ × ℕ)

pub data Rejection : Type 0 where
  no_encrypted_data undecodable missing_timestamp expired_timestamp : Rejection
  missing_field : ℕ → Rejection

pub data Answer : Type 0 where
  rejected : Rejection → Answer
  accepted : Fields → Answer

abbrev pub lookup : ℕ → Fields → Option ℕ
lookup key [] = none
lookup key ((name, value) ∷ fields) =
    let rest = lookup key fields in if name == key then some value else rest

-- The loop of `retrieve_fields`; the last value that is stored under a key is the first in the list.
unfoldable pub retrieve_from : Fields → Fields → List ℕ → Answer
retrieve_from transmitted stored [] = accepted stored
retrieve_from transmitted stored (field ∷ fields) = elim (lookup field transmitted) [
  | none ↦ rejected (missing_field field)
  | some value ↦ retrieve_from transmitted ((field, value) ∷ stored) fields
]

unfoldable pub retrieve_fields : Fields → List ℕ → Answer
retrieve_fields transmitted = retrieve_from transmitted []

abbrev pub is_valid_timestamp : ℕ → ℕ → ℕ → Bool
is_valid_timestamp now stamp max_age = leb stamp (now + max_age)

-- `none` for a request without the field, or with an empty one; 'timestamp' is a key.
unfoldable pub process_perma_payments_transmission :
    {Text : Type 0} → (Text → Option Fields) → ℕ → ℕ → ℕ → Option Text → List ℕ → Answer
process_perma_payments_transmission decode timestamp max_age now none fields =
    rejected no_encrypted_data
process_perma_payments_transmission decode timestamp max_age now (some text) fields =
    elim (decode text) [
      | none ↦ rejected undecodable
      | some post_data ↦ elim (lookup timestamp post_data) [
        | none ↦ rejected missing_timestamp
        | some stamp ↦
            if is_valid_timestamp now stamp max_age
            then retrieve_fields post_data fields
            else rejected expired_timestamp
      ]
    ]

-- Every field that is asked for is in the answer, with the value that was transmitted.
abbrev pub Carries : Fields → Fields → ℕ → Type 0
Carries transmitted stored field =
    (value : ℕ) × (lookup field transmitted ≡ some value) × (lookup field stored ≡ some value)

-- What a list of keys yields: the answer has them all, or it names one that is missing.
abbrev pub Retrieved : Fields → List ℕ → Answer → Type 0
Retrieved transmitted fields (accepted stored) = All (Carries transmitted stored) fields
Retrieved transmitted fields (rejected (missing_field field)) = lookup field transmitted ≡ none
Retrieved transmitted fields (rejected _) = ⊥

abbrev pub Kept : Fields → ℕ → ℕ → Answer → Type 0
Kept transmitted field value (accepted stored) = lookup field stored ≡ some value
Kept transmitted field value (rejected _) = Unit

overwritten :
    (transmitted stored : Fields) (next v field value : ℕ)
    → lookup next transmitted ≡ some v
    → lookup field transmitted ≡ some value
    → lookup field stored ≡ some value
    → lookup field ((next, v) ∷ stored) ≡ some value
overwritten transmitted stored next v field value e t d = elim (Bool-cases (next == field)) [
  | inl same ↦
      let same_name = ((==_iff next field).0 same) in
      rw same (sym e ∙ ap (λ k. lookup k transmitted) same_name ∙ t)
  | inr other ↦ rw other d
]

retrieve_next :
    (transmitted stored : Fields) (field : ℕ) (fields : List ℕ) (v : ℕ)
    → lookup field transmitted ≡ some v
    → retrieve_from transmitted stored (field ∷ fields)
      ≡ retrieve_from transmitted ((field, v) ∷ stored) fields
unfolding retrieve_from
retrieve_next transmitted stored field fields v e = rw (e, retrieve_from) refl

retrieve_stop :
    (transmitted stored : Fields) (field : ℕ) (fields : List ℕ)
    → lookup field transmitted ≡ none
    → retrieve_from transmitted stored (field ∷ fields) ≡ rejected (missing_field field)
unfolding retrieve_from
retrieve_stop transmitted stored field fields e = rw (e, retrieve_from) refl

-- A stored value stays, since a later store under its key stores the same value.
retrieve_from-Kept :
    (transmitted stored : Fields) (fields : List ℕ) (field value : ℕ)
    → lookup field transmitted ≡ some value
    → lookup field stored ≡ some value
    → Kept transmitted field value (retrieve_from transmitted stored fields)
unfolding retrieve_from
retrieve_from-Kept transmitted stored [] field value t d = d
retrieve_from-Kept transmitted stored (next ∷ fields) field value t d =
    elim (Option-cases (lookup next transmitted)) [
      | inl e ↦
          subst (λ a. Kept transmitted field value a)
            (sym (retrieve_stop transmitted stored next fields e)) tt
      | inr (v, e) ↦
          subst (λ a. Kept transmitted field value a)
            (sym (retrieve_next transmitted stored next fields v e))
            (retrieve_from-Kept transmitted ((next, v) ∷ stored) fields field value t
              (overwritten transmitted stored next v field value e t d))
    ]

Retrieved-cons :
    (transmitted : Fields) (field : ℕ) (fields : List ℕ) (v : ℕ) (answer : Answer)
    → lookup field transmitted ≡ some v
    → Kept transmitted field v answer
    → Retrieved transmitted fields answer
    → Retrieved transmitted (field ∷ fields) answer
Retrieved-cons transmitted field fields v (accepted stored) e k r = ((v, e, k), r)
Retrieved-cons transmitted field fields v (rejected (missing_field name)) e k r = r
Retrieved-cons transmitted field fields v (rejected no_encrypted_data) e k r = elim r [ ]
Retrieved-cons transmitted field fields v (rejected undecodable) e k r = elim r [ ]
Retrieved-cons transmitted field fields v (rejected missing_timestamp) e k r = elim r [ ]
Retrieved-cons transmitted field fields v (rejected expired_timestamp) e k r = elim r [ ]

retrieve_from-Retrieved :
    (transmitted stored : Fields) (fields : List ℕ)
    → Retrieved transmitted fields (retrieve_from transmitted stored fields)
unfolding retrieve_from
retrieve_from-Retrieved transmitted stored [] = tt
retrieve_from-Retrieved transmitted stored (field ∷ fields) =
    elim (Option-cases (lookup field transmitted)) [
      | inl e ↦
          subst (λ a. Retrieved transmitted (field ∷ fields) a)
            (sym (retrieve_stop transmitted stored field fields e)) e
      | inr (v, e) ↦
          subst (λ a. Retrieved transmitted (field ∷ fields) a)
            (sym (retrieve_next transmitted stored field fields v e))
            (Retrieved-cons transmitted field fields v
              (retrieve_from transmitted ((field, v) ∷ stored) fields) e
              (retrieve_from-Kept transmitted ((field, v) ∷ stored) fields field v e
                (rw (==_refl field) refl))
              (retrieve_from-Retrieved transmitted ((field, v) ∷ stored) fields))
    ]

answered :
    {Text : Type 0} (decode : Text → Option Fields) (timestamp max_age now : ℕ) (text : Text)
    (post_data : Fields) (stamp : ℕ) (fields : List ℕ)
    → decode text ≡ some post_data
    → lookup timestamp post_data ≡ some stamp
    → stamp ≤ now + max_age
    → process_perma_payments_transmission decode timestamp max_age now (some text) fields
      ≡ retrieve_fields post_data fields
unfolding process_perma_payments_transmission
answered decode timestamp max_age now text post_data stamp fields d l s =
    rw (d, process_perma_payments_transmission) (rw l (ground arith))

-- A transmission that decodes to data whose timestamp lies at most `max_age` after now is answered from
-- those data, however old the timestamp is: with every field that is asked for and its value, or with the
-- name of one that is missing.
pub process_perma_payments_transmission-Retrieved :
    {Text : Type 0} (decode : Text → Option Fields) (timestamp max_age now : ℕ) (text : Text)
    (post_data : Fields) (stamp : ℕ) (fields : List ℕ)
    → decode text ≡ some post_data
    → lookup timestamp post_data ≡ some stamp
    → stamp ≤ now + max_age
    → Retrieved post_data fields
        (process_perma_payments_transmission decode timestamp max_age now (some text) fields)
process_perma_payments_transmission-Retrieved decode timestamp max_age now text post_data stamp
      fields d l s =
    subst (λ a. Retrieved post_data fields a)
      (sym (answered decode timestamp max_age now text post_data stamp fields d l s))
      (unfold retrieve_fields in retrieve_from-Retrieved post_data [] fields)
