-- ===== src/LinkApi.antt =====
-- What the API accepts of a link: `AuthenticatedLinkSerializer` of perma_web/api/serializers.py and the
-- file types of perma_web/api/utils.py. Texts are lists of ASCII codes.
pub mod Urls
pub mod Privacy
pub mod Uploads
use perma.Prelude.{
  ℕ, ◌+◌, Bool, true, false, not, ◌&&◌, ◌||◌, Option, none, some, List, [], ◌∷◌, ◌++◌, map, ltb,
  leb, ◌==◌, if◌then◌else◌, take, drop, any_of, is_none,
}
use perma.Access.{PrivateReason, meta, by_user}
use perma.InternetArchive.{Text}
use perma.InternetArchive.Confirm.{same_text, is_whitespace}

-- `str.strip`, from the right and then from the left.
unfoldable pub rstrip : Text → Text
rstrip [] = []
rstrip (c ∷ cs) =
    let rest = rstrip cs in if same_text rest [] && is_whitespace c then [] else c ∷ rest

unfoldable pub lstrip : Text → Text
lstrip [] = []
lstrip (c ∷ cs) = let rest = lstrip cs in if is_whitespace c then rest else c ∷ cs

abbrev pub strip : Text → Text
strip url = lstrip (rstrip url)

abbrev pub lower : ℕ → ℕ
lower c = if leb b'A' c && leb c b'Z' then c + 32 else c

abbrev pub is_letter : ℕ → Bool
is_letter c = leb b'a' c && leb c b'z' || leb b'A' c && leb c b'Z'

-- `[a-z0-9+.-]`, with `re.IGNORECASE`.
abbrev pub is_scheme_character : ℕ → Bool
is_scheme_character c =
    is_letter c || leb b'0' c && leb c b'9' || c == b'+' || c == b'.' || c == b'-'

abbrev pub starts_with_slashes : Text → Bool
starts_with_slashes (c ∷ d ∷ cs) = c == b'/' && d == b'/'
starts_with_slashes _ = false

abbrev pub cons_if_any : ℕ → Option Text → Option Text
cons_if_any c none = none
cons_if_any c (some cs) = some (c ∷ cs)

-- The group of `URL_SCHEME_RE`, from its second character on.
unfoldable pub scheme_rest : Text → Option Text
scheme_rest [] = none
scheme_rest (c ∷ cs) =
    let rest = cons_if_any c (scheme_rest cs) in
    if c == b':'
    then (if starts_with_slashes cs then some [] else none)
    else if is_scheme_character c
    then rest
    else none

unfoldable pub scheme : Text → Option Text
scheme [] = none
scheme (c ∷ cs) = if is_letter c then cons_if_any c (scheme_rest cs) else none

abbrev pub remove_slashes : Text → Text
remove_slashes (c ∷ d ∷ cs) = if c == b'/' && d == b'/' then cs else c ∷ d ∷ cs
remove_slashes cs = cs

abbrev pub http : Text
http = b'h' ∷ b't' ∷ b't' ∷ b'p' ∷ []

abbrev pub https : Text
https = b'h' ∷ b't' ∷ b't' ∷ b'p' ∷ b's' ∷ []

abbrev pub is_web_scheme : Text → Bool
is_web_scheme name = same_text (map lower name) http || same_text (map lower name) https

-- `none` is a `ValidationError`.
abbrev pub check_scheme : Text → Option Text → Option Text
check_scheme url none =
    some (b'h' ∷ b't' ∷ b't' ∷ b'p' ∷ b's' ∷ b':' ∷ b'/' ∷ b'/' ∷ remove_slashes url)
check_scheme url (some name) = if is_web_scheme name then some url else none

abbrev pub validate_stripped : Text → Option Text
validate_stripped [] = some []
validate_stripped (c ∷ cs) = check_scheme (c ∷ cs) (scheme (c ∷ cs))

unfoldable pub validate_url : Text → Option Text
validate_url url = validate_stripped (strip url)

-- The part of the request's data that the privacy rules read and write: `none` is a key that is not there.
pub record PrivacyData : Type 0 where
  pub is_private : Option Bool
  pub private_reason : Option (Option PrivateReason)

pub record PrivacyRow : Type 0 where
  pub is_private : Bool
  pub private_reason : Option PrivateReason

abbrev pub same_bool : Bool → Bool → Bool
same_bool true b = b
same_bool false b = not b

abbrev pub is_settled_by_staff : Option PrivateReason → Bool
is_settled_by_staff none = false
is_settled_by_staff (some by_user) = false
is_settled_by_staff (some meta) = false
is_settled_by_staff _ = true

abbrev pub reason_for : Bool → Option PrivateReason
reason_for true = some by_user
reason_for false = none

-- The update of a user who is not staff; `none` is the error "Cannot change link privacy".
abbrev pub restrict : PrivacyRow → Option Bool → Option PrivacyData
restrict link none = some (record { is_private = none; private_reason = none })
restrict link (some is_private) =
    if same_bool link.is_private is_private
    then some (record { is_private = some is_private; private_reason = none })
    else if is_settled_by_staff link.private_reason
    then none
    else some
        (record { is_private = some is_private; private_reason = some (reason_for is_private) })

unfoldable pub validate_privacy_update : Bool → PrivacyRow → PrivacyData → Option PrivacyData
validate_privacy_update is_staff link request =
    if is_staff then some request else restrict link request.is_private

abbrev pub value_or : {A : Type 0} → A → Option A → A
value_or default none = default
value_or default (some a) = a

unfoldable pub validate_privacy_new : PrivacyData → PrivacyData
validate_privacy_new request = record request {
  private_reason = some (reason_for (value_or false request.is_private));
}

-- `Link.save` gives a private link a reason.
abbrev pub save_reason : PrivacyRow → PrivacyRow
save_reason link =
    if link.is_private && is_none link.private_reason
    then record link { private_reason = some by_user }
    else link

-- `serializer.save` on the two columns.
unfoldable pub save_privacy : PrivacyData → PrivacyRow → PrivacyRow
save_privacy request link = save_reason (record {
  is_private = value_or link.is_private request.is_private;
  private_reason = value_or link.private_reason request.private_reason;
})
