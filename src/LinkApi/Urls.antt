-- ===== src/LinkApi/Urls.antt =====
-- The URLs that the API accepts: `validate_url` of perma_web/api/serializers.py.
use mathlib.Core.Path.{subst}
use perma.Prelude.{
  ℕ, ◌≡◌, ◌⊎◌, refl, ap, ◌∙◌, inl, inr, true, false, ◌&&◌, Option, none, some, [], ◌∷◌, ◌++◌, map,
  ==_iff, ◌==◌, arith, Bool-cases, Option-cases,
}
use perma.InternetArchive.{Text}
use perma.InternetArchive.Confirm.{same_text, is_whitespace}
use perma.LinkApi.{
  rstrip, lstrip, strip, scheme, scheme_rest, remove_slashes, starts_with_slashes, lower, http,
  https, is_web_scheme, check_scheme, validate_stripped, validate_url,
}

rstrip-cons :
    (c : ℕ) (cs : Text) → is_whitespace c ≡ false → rstrip cs ≡ cs → rstrip (c ∷ cs) ≡ c ∷ cs
unfolding rstrip
rstrip-cons c cs h e = rw e (ground arith)

rstrip-tail : (c : ℕ) (cs : Text) → rstrip (c ∷ cs) ≡ c ∷ cs → rstrip cs ≡ cs
unfolding rstrip
rstrip-tail c cs h = elim (Bool-cases (same_text (rstrip cs) [] && is_whitespace c)) [
  | inl gone ↦ absurd (let h' : [] ≡ c ∷ cs = rw gone at h in cc)
  | inr stays ↦ let h' : c ∷ rstrip cs ≡ c ∷ cs = rw stays at h in cc
]

rstrip-rstrip : (url : Text) → rstrip (rstrip url) ≡ rstrip url
unfolding rstrip
rstrip-rstrip [] = refl
rstrip-rstrip (c ∷ cs) = elim (Bool-cases (same_text (rstrip cs) [] && is_whitespace c)) [
  | inl gone ↦ rw gone refl
  | inr stays ↦ rw stays (rw (rstrip-rstrip cs) (rw stays refl))
]

lstrip-lstrip : (url : Text) → lstrip (lstrip url) ≡ lstrip url
unfolding lstrip
lstrip-lstrip [] = refl
lstrip-lstrip (c ∷ cs) = elim (Bool-cases (is_whitespace c)) [
  | inl gone ↦ rw gone (lstrip-lstrip cs)
  | inr stays ↦ rw stays (rw stays refl)
]

rstrip-lstrip : (url : Text) → rstrip url ≡ url → rstrip (lstrip url) ≡ lstrip url
unfolding lstrip
rstrip-lstrip [] h = h
rstrip-lstrip (c ∷ cs) h = elim (Bool-cases (is_whitespace c)) [
  | inl gone ↦ rw gone (rstrip-lstrip cs (rstrip-tail c cs h))
  | inr stays ↦ rw stays h
]

rstrip-strip : (url : Text) → rstrip (strip url) ≡ strip url
rstrip-strip url = rstrip-lstrip (rstrip url) (rstrip-rstrip url)

strip-strip : (url : Text) → strip (strip url) ≡ strip url
strip-strip url = ap lstrip (rstrip-strip url) ∙ lstrip-lstrip (rstrip url)

rstrip-remove_slashes :
    (url : Text) → rstrip url ≡ url → rstrip (remove_slashes url) ≡ remove_slashes url
rstrip-remove_slashes [] h = h
rstrip-remove_slashes (c ∷ []) h = h
rstrip-remove_slashes (c ∷ d ∷ cs) h = elim (Bool-cases (c == b'/' && d == b'/')) [
  | inl slashes ↦ rw slashes (rstrip-tail d cs (rstrip-tail c (d ∷ cs) h))
  | inr others ↦ rw others h
]

-- A URL with the scheme that is assumed.
abbrev with_https : Text → Text
with_https url = b'h' ∷ b't' ∷ b't' ∷ b'p' ∷ b's' ∷ b':' ∷ b'/' ∷ b'/' ∷ url

rstrip-with_https : (url : Text) → rstrip url ≡ url → rstrip (with_https url) ≡ with_https url
rstrip-with_https url h = rstrip-cons b'h' _ refl (
    rstrip-cons b't' _ refl (
      rstrip-cons b't' _ refl (
        rstrip-cons b'p' _ refl (
          rstrip-cons b's' _ refl
            (rstrip-cons b':' _ refl (rstrip-cons b'/' _ refl (rstrip-cons b'/' url refl h)))))))

strip-with_https : (url : Text) → rstrip url ≡ url → strip (with_https url) ≡ with_https url
unfolding lstrip
strip-with_https url h = ap lstrip (rstrip-with_https url h)

scheme-with_https : (url : Text) → scheme (with_https url) ≡ some https
unfolding scheme scheme_rest
scheme-with_https url = refl

-- What is accepted, by the code's own tests: nothing, or a stripped text with a scheme of the web.
abbrev pub IsAccepted : Text → Type 0
IsAccepted url =
    (strip url ≡ url)
    × ((url ≡ []) ⊎ ((name : Text) × (scheme url ≡ some name) × (is_web_scheme name ≡ true)))

check_scheme-IsAccepted :
    (url v : Text)
    → strip url ≡ url
    → rstrip url ≡ url
    → check_scheme url (scheme url) ≡ some v
    → IsAccepted v
check_scheme-IsAccepted url v h r e = elim (Option-cases (scheme url)) [
  | inl without ↦
      let e' : some (with_https (remove_slashes url)) ≡ some v = rw without at e in
      let same : with_https (remove_slashes url) ≡ v = cc in
      subst IsAccepted same (
        strip-with_https (remove_slashes url) (rstrip-remove_slashes url r),
        inr (https, scheme-with_https (remove_slashes url), refl),
      )
  | inr (name, with_scheme) ↦ elim (Bool-cases (is_web_scheme name)) [
    | inl web ↦
        let e' : some url ≡ some v = rw (with_scheme, web) at e in
        let same : url ≡ v = cc in subst IsAccepted same (h, inr (name, with_scheme, web))
    | inr foreign ↦
        let e' : ◌≡◌ {A = Option Text} none (some v) = rw (with_scheme, foreign) at e in cc
  ]
]

validate_stripped-IsAccepted :
    (url v : Text)
    → strip url ≡ url
    → rstrip url ≡ url
    → validate_stripped url ≡ some v
    → IsAccepted v
validate_stripped-IsAccepted [] v h r e =
    let same : [] ≡ v = cc in subst IsAccepted same (h, inl refl)
validate_stripped-IsAccepted (c ∷ cs) v h r e = check_scheme-IsAccepted (c ∷ cs) v h r e

validate_url-IsAccepted : (url v : Text) → validate_url url ≡ some v → IsAccepted v
unfolding validate_url
validate_url-IsAccepted url v e =
    validate_stripped-IsAccepted (strip url) v (strip-strip url) (rstrip-strip url) e

-- A name, "://" and the rest.
abbrev pub with_scheme : Text → Text → Text
with_scheme name rest = name ++ (b':' ∷ b'/' ∷ b'/' ∷ rest)

-- Nothing, or a text without whitespace at its ends that begins with "http://" or "https://", in
-- whatever case.
abbrev pub IsWebUrl : Text → Type 0
IsWebUrl url =
    (strip url ≡ url)
    × ((url ≡ [])
        ⊎ ((name : Text) × (rest : Text) × (url ≡ with_scheme name rest)
            × ((map lower name ≡ http) ⊎ (map lower name ≡ https))))

same_text-eq : (s t : Text) → same_text s t ≡ true → s ≡ t
same_text-eq [] [] h = refl
same_text-eq [] (d ∷ ds) h = cc
same_text-eq (c ∷ cs) [] h = cc
same_text-eq (c ∷ cs) (d ∷ ds) h =
    let same = (==_iff c d).0 (ground arith) in let rest = same_text-eq cs ds (ground arith) in cc

slashes_split :
    (cs : Text) → starts_with_slashes cs ≡ true → (rest : Text) × (cs ≡ b'/' ∷ b'/' ∷ rest)
slashes_split [] h = cc
slashes_split (c ∷ []) h = cc
slashes_split (c ∷ d ∷ cs) h =
    let first = (==_iff c b'/').0 (ground arith) in
    let second = (==_iff d b'/').0 (ground arith) in (cs, cc)

scheme_rest-split :
    (cs name : Text) → scheme_rest cs ≡ some name → (rest : Text) × (cs ≡ with_scheme name rest)
unfolding scheme_rest
scheme_rest-split [] name h = cc
scheme_rest-split (c ∷ cs) name h = elim (Bool-cases (c == b':')) [
  | inl colon ↦ elim (Bool-cases (starts_with_slashes cs)) [
    | inl slashes ↦
        let (rest, e) = slashes_split cs slashes in
        let h' : some [] ≡ some name = rw (colon, slashes) at h in
        let none_left : [] ≡ name = cc in
        let is_colon = (==_iff c b':').0 colon in
        (rest, subst (λ t. c ∷ cs ≡ with_scheme t rest) none_left cc)
    | inr bare ↦ let h' : ◌≡◌ {A = Option Text} none (some name) = rw (colon, bare) at h in cc
  ]
  | inr other ↦ elim (Option-cases (scheme_rest cs)) [
    | inl nothing ↦ ground arith
    | inr (tail, found) ↦
        let (rest, e) = scheme_rest-split cs tail found in
        let same : c ∷ tail ≡ name = ground arith in
        (rest, subst (λ t. c ∷ cs ≡ with_scheme t rest) same (ap (λ t. c ∷ t) e))
  ]
]

scheme-split :
    (cs name : Text) → scheme cs ≡ some name → (rest : Text) × (cs ≡ with_scheme name rest)
unfolding scheme
scheme-split [] name h = cc
scheme-split (c ∷ cs) name h = elim (Option-cases (scheme_rest cs)) [
  | inl nothing ↦ ground arith
  | inr (tail, found) ↦
      let (rest, e) = scheme_rest-split cs tail found in
      let same : c ∷ tail ≡ name = ground arith in
      (rest, subst (λ t. c ∷ cs ≡ with_scheme t rest) same (ap (λ t. c ∷ t) e))
]

is_web_scheme-eq :
    (name : Text) → is_web_scheme name ≡ true → (map lower name ≡ http) ⊎ (map lower name ≡ https)
is_web_scheme-eq name h = elim (Bool-cases (same_text (map lower name) http)) [
  | inl plain ↦ inl (same_text-eq (map lower name) http plain)
  | inr other ↦ inr (same_text-eq (map lower name) https (rw other at h))
]

IsAccepted-IsWebUrl : (url : Text) → IsAccepted url → IsWebUrl url
IsAccepted-IsWebUrl url (h, inl empty) = (h, inl empty)
IsAccepted-IsWebUrl url (h, inr (name, e, web)) =
    let (rest, split) = scheme-split url name e in
    (h, inr (name, rest, split, is_web_scheme-eq name web))

-- Every URL that `validate_url` returns is empty or begins with `http://` or `https://`, in whatever case,
-- and has no whitespace at its ends.
pub validate_url-IsWebUrl : (url v : Text) → validate_url url ≡ some v → IsWebUrl v
validate_url-IsWebUrl url v e = IsAccepted-IsWebUrl v (validate_url-IsAccepted url v e)

checked_scheme :
    (url name : Text)
    → scheme url ≡ some name
    → is_web_scheme name ≡ true
    → check_scheme url (scheme url) ≡ some url
checked_scheme url name e web = rw (e, web) refl

validate_stripped-web :
    (url name : Text)
    → scheme url ≡ some name
    → is_web_scheme name ≡ true
    → validate_stripped url ≡ some url
unfolding scheme
validate_stripped-web [] name e web = cc
validate_stripped-web (c ∷ cs) name e web = checked_scheme (c ∷ cs) name e web

IsAccepted-validate_url : (url : Text) → IsAccepted url → validate_url url ≡ some url
unfolding validate_url
IsAccepted-validate_url url (h, inl empty) = rw (h, empty) refl
IsAccepted-validate_url url (h, inr (name, with_scheme, web)) =
    rw h (validate_stripped-web url name with_scheme web)

-- A URL that `validate_url` has returned is returned unchanged when it is validated again.
pub validate_url-validate_url : (url v : Text) → validate_url url ≡ some v → validate_url v ≡ some v
validate_url-validate_url url v e = IsAccepted-validate_url v (validate_url-IsAccepted url v e)
