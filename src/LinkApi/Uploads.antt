-- ===== src/LinkApi/Uploads.antt =====
-- Uploaded files and submitted URLs of links: the rest of `AuthenticatedLinkSerializer.validate` of
-- perma_web/api/serializers.py, and the file types of perma_web/api/utils.py. A file is a list of bytes.
use perma.Prelude.{
  ℕ, ◌≡◌, Bool, true, false, not, ◌&&◌, ◌||◌, Option, none, some, is_none, [], ◌∷◌, map, ltb, leb,
  ◌==◌, if◌then◌else◌, take, drop, arith, Bool-cases, inl, inr,
}
use perma.InternetArchive.{Text}
use perma.InternetArchive.Confirm.{same_text}
use perma.LinkApi.{lower}

pub data MimeType : Type 0 where
  jpeg png gif pdf : MimeType

-- `name.rsplit('.', 1)[-1]`
abbrev pub has_dot : Text → Bool
has_dot [] = false
has_dot (c ∷ cs) = let rest = has_dot cs in if c == b'.' then true else rest

abbrev pub extension : Text → Text
extension [] = []
extension (c ∷ cs) =
    let rest = extension cs in if has_dot cs then rest else if c == b'.' then cs else c ∷ cs

abbrev pub file_extension_lookup : Text → Option MimeType
file_extension_lookup text =
    if same_text text (b'j' ∷ b'p' ∷ b'g' ∷ []) || same_text text (b'j' ∷ b'p' ∷ b'e' ∷ b'g' ∷ [])
    then some jpeg
    else if same_text text (b'p' ∷ b'd' ∷ b'f' ∷ [])
    then some pdf
    else if same_text text (b'p' ∷ b'n' ∷ b'g' ∷ [])
    then some png
    else if same_text text (b'g' ∷ b'i' ∷ b'f' ∷ [])
    then some gif
    else none

unfoldable pub get_mime_type : Text → Option MimeType
get_mime_type name = file_extension_lookup (map lower (extension name))

-- `_image_type` reads the first 32 bytes.
abbrev pub is_gif : Text → Bool
is_gif header =
    same_text (take 6 header) (b'G' ∷ b'I' ∷ b'F' ∷ b'8' ∷ b'7' ∷ b'a' ∷ [])
    || same_text (take 6 header) (b'G' ∷ b'I' ∷ b'F' ∷ b'8' ∷ b'9' ∷ b'a' ∷ [])

abbrev pub is_png : Text → Bool
is_png header = same_text (take 8 header) (137 ∷ b'P' ∷ b'N' ∷ b'G' ∷ 13 ∷ 10 ∷ 26 ∷ 10 ∷ [])

abbrev pub is_jpeg : Text → Bool
is_jpeg header =
    same_text (take 4 (drop 6 header)) (b'J' ∷ b'F' ∷ b'I' ∷ b'F' ∷ [])
    || same_text (take 4 (drop 6 header)) (b'E' ∷ b'x' ∷ b'i' ∷ b'f' ∷ [])
    || same_text (take 4 header) (255 ∷ 216 ∷ 255 ∷ 219 ∷ [])

unfoldable pub image_type : Text → Option MimeType
image_type content =
    let header = take 32 content in
    if is_gif header
    then some gif
    else if is_png header
    then some png
    else if is_jpeg header
    then some jpeg
    else none

-- `b'%PDF-' in f.read(10)`
abbrev pub has_pdf_mark : Text → Bool
has_pdf_mark [] = false
has_pdf_mark (c ∷ cs) =
    let rest = has_pdf_mark cs in
    if same_text (take 5 (c ∷ cs)) (b'%' ∷ b'P' ∷ b'D' ∷ b'F' ∷ b'-' ∷ []) then true else rest

abbrev pub is_type : MimeType → Option MimeType → Bool
is_type jpeg (some jpeg) = true
is_type png (some png) = true
is_type gif (some gif) = true
is_type _ _ = false

abbrev pub valid_file : MimeType → Text → Bool
valid_file pdf content = has_pdf_mark (take 10 content)
valid_file jpeg content = is_type jpeg (image_type content)
valid_file png content = is_type png (image_type content)
valid_file gif content = is_type gif (image_type content)

pub data Upload : Type 0 where
  no_file blank_file : Upload
  file : Text → Text → ℕ → Upload

pub data Verdict : Type 0 where
  clean unavailable unsafe rejected : Verdict

-- What comes of the request to the scanner: an exception, an answer that is no dictionary, or one
-- with a verdict, which may be missing or unknown.
pub data ScanReply : Type 0 where
  request_exception malformed : ScanReply
  answered : Option Verdict → ScanReply

unfoldable pub scan_upload : ScanReply → Verdict
scan_upload request_exception = unavailable
scan_upload malformed = unavailable
scan_upload (answered none) = unavailable
scan_upload (answered (some verdict)) = verdict

pub data FileError : Type 0 where
  cannot_be_blank cannot_be_replaced invalid_file too_large validation_failed : FileError

-- `none` is a scan that the settings turn off.
abbrev pub is_unsafe : Option Verdict → Bool
is_unsafe (some unsafe) = true
is_unsafe (some rejected) = true
is_unsafe _ = false

abbrev pub is_of_type : Option MimeType → Text → Bool
is_of_type none content = false
is_of_type (some mime_type) content = valid_file mime_type content

-- `is_permanent` is that of the link whose file is replaced, if it is an update.
unfoldable pub validate_file : ℕ → Option Verdict → Bool → Upload → Option FileError
validate_file max_size verdict is_permanent no_file = none
validate_file max_size verdict is_permanent blank_file = some cannot_be_blank
validate_file max_size verdict is_permanent (file name content size) =
    if is_permanent
    then some cannot_be_replaced
    else if not (is_of_type (get_mime_type name) content)
    then some invalid_file
    else if ltb max_size size
    then some too_large
    else if is_unsafe verdict
    then some validation_failed
    else none

-- The answer of the Scoop API to the validation of a URL.
pub record Validation : Type 0 where
  pub valid : Bool
  pub content_length : Option ℕ

pub data UrlError : Type 0 where
  empty_url bad_url capture_disabled refused_by_scoop page_too_large network_error : UrlError

abbrev pub is_too_long : ℕ → Option ℕ → Bool
is_too_long max_size none = false
is_too_long max_size (some content_length) = ltb max_size content_length

-- The later error overwrites the earlier; `none` is a `ScoopAPIException`.
abbrev pub ask_scoop : ℕ → Option Validation → Option UrlError
ask_scoop max_size none = some network_error
ask_scoop max_size (some answer) =
    if is_too_long max_size answer.content_length
    then some page_too_large
    else if answer.valid
    then none
    else some refused_by_scoop

abbrev pub is_uploaded : Upload → Bool
is_uploaded (file name content size) = true
is_uploaded _ = false

-- A submitted URL of a new link; `is_url` is Django's validator.
unfoldable pub validate_submitted_url :
    ℕ → (Text → Bool) → Bool → Option Validation → Upload → Text → Option UrlError
validate_submitted_url max_size is_url is_disabled answer upload [] = some empty_url
validate_submitted_url max_size is_url is_disabled answer upload (c ∷ url) =
    if is_uploaded upload
    then (if is_url (c ∷ url) then none else some bad_url)
    else if is_disabled
    then some capture_disabled
    else ask_scoop max_size answer

-- A file that may be stored: its bytes are those of its extension's type, and it is not too large.
abbrev pub is_storable : ℕ → Upload → Bool
is_storable max_size no_file = true
is_storable max_size blank_file = false
is_storable max_size (file name content size) =
    is_of_type (get_mime_type name) content && leb size max_size

-- A page that may be captured: the Scoop API says that it is valid, and not that it is too large.
abbrev pub is_capturable : ℕ → Option Validation → Bool
is_capturable max_size none = false
is_capturable max_size (some answer) =
    answer.valid && not (is_too_long max_size answer.content_length)

-- A new link has no error for its URL and its file exactly if the URL is not empty, and either there is
-- a file that may be stored and is not unsafe, and the URL has the form of one, or there is
-- none, live captures are not disabled, and the page may be captured.
pub validate_new-none :
    (max_size : ℕ) (is_url : Text → Bool) (is_disabled : Bool) (answer : Option Validation)
    (verdict : Option Verdict) (upload : Upload) (url : Text)
    → (is_none (validate_submitted_url max_size is_url is_disabled answer upload url)
        && is_none (validate_file max_size verdict false upload))
      ≡ (not (same_text url [])
          && (if is_uploaded upload
              then is_storable max_size upload && not (is_unsafe verdict) && is_url url
              else is_storable max_size upload && not is_disabled && is_capturable max_size answer))
unfolding validate_submitted_url validate_file
validate_new-none max_size is_url is_disabled answer verdict no_file [] = ground arith
validate_new-none max_size is_url is_disabled answer verdict blank_file [] = ground arith
validate_new-none max_size is_url is_disabled answer verdict (file name content size) [] =
    ground arith
validate_new-none max_size is_url is_disabled answer verdict no_file (c ∷ url) = ground arith
validate_new-none max_size is_url is_disabled answer verdict blank_file (c ∷ url) = ground arith
validate_new-none max_size is_url is_disabled answer verdict (file name content size) (c ∷ url) =
    elim (Bool-cases (is_of_type (get_mime_type name) content)) [
      | inl typed ↦ rw typed (ground arith)
      | inr untyped ↦ rw untyped (ground arith)
    ]
