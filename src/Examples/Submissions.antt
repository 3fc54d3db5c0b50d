-- ===== src/Examples/Submissions.antt =====
-- URLs, privacy and files of links at concrete inputs.
use perma.Prelude.{◌≡◌, refl, Bool, true, false, is_some, none, some, [], ◌∷◌}
use perma.Access.{
  Organizations, User, Link, Folder, meta, old_policy, can_edit, can_toggle_private, folder_filter,
}
use perma.InternetArchive.{Text}
use perma.LinkApi.{
  validate_url, rstrip, lstrip, scheme, scheme_rest, PrivacyData, PrivacyRow, save_privacy,
  validate_privacy_new, validate_privacy_update,
}
use perma.LinkApi.Urls.{IsWebUrl, validate_url-IsWebUrl}
use perma.LinkApi.Privacy.{
  has_reason_if_private, accepted, validate_privacy-has_reason_if_private, verdicts, make_public,
  row_of, can_toggle_private-verdicts,
}
use perma.LinkApi.Uploads.{Upload, file, is_storable, get_mime_type, image_type}

-- " a.b "
abbrev bare : Text
bare = b' ' ∷ b'a' ∷ b'.' ∷ b'b' ∷ b' ' ∷ []

-- "https://a.b"
abbrev secure : Text
secure = b'h' ∷ b't' ∷ b't' ∷ b'p' ∷ b's' ∷ b':' ∷ b'/' ∷ b'/' ∷ b'a' ∷ b'.' ∷ b'b' ∷ []

validate_url-IsWebUrl_example : IsWebUrl secure
unfolding validate_url rstrip lstrip scheme scheme_rest
validate_url-IsWebUrl_example = validate_url-IsWebUrl bare secure refl

-- "ftp://a"
file_transfer : validate_url (b'f' ∷ b't' ∷ b'p' ∷ b':' ∷ b'/' ∷ b'/' ∷ b'a' ∷ []) ≡ none
unfolding validate_url rstrip lstrip scheme scheme_rest
file_transfer = refl

abbrev made : PrivacyData
made = record { is_private = some true; private_reason = none }

abbrev by_page : PrivacyRow
by_page = record { is_private = true; private_reason = some meta }

validate_privacy-has_reason_if_private_example :
    (has_reason_if_private (
        save_privacy
          (validate_privacy_new made)
          (record { is_private = false; private_reason = none }))
      ≡ true)
    × (has_reason_if_private (accepted (validate_privacy_update false by_page make_public) by_page)
        ≡ true)
validate_privacy-has_reason_if_private_example =
    validate_privacy-has_reason_if_private made make_public by_page refl

abbrev table : Organizations
table id = none

abbrev regular_user : User
regular_user = record {
  pk = 10;
  is_anonymous = false;
  is_staff = false;
  registrar_id = none;
  organizations = [];
  sponsoring_registrars = [];
}

abbrev personal_folder : Folder
personal_folder = record { owned_by_id = some 10; organization_id = none; sponsored_by_id = none }

abbrev old_link : Link
old_link = record {
  is_private = true;
  private_reason = some old_policy;
  user_deleted = false;
  archive_timestamp = 100;
  folders = personal_folder ∷ [];
}

can_toggle_private-verdicts_example :
    (can_toggle_private table regular_user old_link ≡ (verdicts old_link.private_reason).0)
    × (is_some (validate_privacy_update false (row_of old_link) make_public)
        ≡ (verdicts old_link.private_reason).1)
unfolding can_edit folder_filter
can_toggle_private-verdicts_example =
    can_toggle_private-verdicts table regular_user old_link refl refl refl

abbrev picture : Upload
picture =
    file (b'a' ∷ b'.' ∷ b'G' ∷ b'I' ∷ b'F' ∷ []) (b'G' ∷ b'I' ∷ b'F' ∷ b'8' ∷ b'9' ∷ b'a' ∷ []) 6

abbrev is_url : Text → Bool
is_url url = true

stored_picture : is_storable 100 picture ≡ true
unfolding get_mime_type image_type
stored_picture = refl
