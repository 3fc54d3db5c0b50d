-- ===== src/InternetArchive/Confirm.antt =====
-- `confirm_file_uploaded_to_internet_archive` and `confirm_file_deleted_from_daily_item` of
-- perma_web/perma/celery_tasks.py.
use perma.Prelude.{
  ℕ, ◌+◌, ◌-◌, Bool, true, false, not, ◌&&◌, ◌||◌, Option, none, some, [], ◌∷◌, ltb, leb, ◌==◌,
  if◌then◌else◌, filter_if,
}
use perma.InternetArchive.{
  FileStatus, confirmed_present, confirmed_absent, Text, Metadata, Item, Daily, Limits, may_retry,
}

-- What `get_file` finds in the item.
pub record ArchivedFile : Type 0 where
  pub exists : Bool
  pub metadata : Metadata
  pub size : ℕ
  -- `ia_item.files_count`
  pub files_count : ℕ

-- `none` is a connection error.
abbrev pub Sight : Type 0
Sight = Option ArchivedFile

abbrev pub same_text : Text → Text → Bool
same_text [] [] = true
same_text [] (d ∷ ds) = false
same_text (c ∷ cs) [] = false
same_text (c ∷ cs) (d ∷ ds) = c == d && same_text cs ds

-- The ASCII whitespace that `str.split` splits at.
abbrev pub is_whitespace : ℕ → Bool
is_whitespace c = c == b' ' || leb 9 c && leb c 13 || leb 28 c && leb c 31

abbrev pub remove_whitespace : Text → Text
remove_whitespace = filter_if (λ c. not (is_whitespace c))

-- `metadata.get(key, '')`
abbrev pub value_of : ℕ → Metadata → Text
value_of key [] = []
value_of key ((name, value) ∷ metadata) =
    let rest = value_of key metadata in if name == key then value else rest

-- The loop of assertions over the expected metadata.
abbrev pub has_expected : Metadata → Metadata → Bool
has_expected found [] = true
has_expected found ((key, value) ∷ expected) =
    same_text (remove_whitespace (value_of key found)) (remove_whitespace value)
    && has_expected found expected

-- The arguments with which a confirmation is queued again: `attempts` and `connection_errors`.
pub record Confirmed : Type 0 where
  pub daily : Daily
  pub again : Option (ℕ × ℕ)

abbrev pub stay : Daily → Confirmed
stay daily = record { daily = daily; again = none }

abbrev pub recheck : Bool → ℕ × ℕ → Daily → Confirmed
recheck true arguments daily = record { daily = daily; again = some arguments }
recheck false arguments daily = stay daily

-- The rows after a confirmation. `Greatest(F('tasks_in_progress') - 1, 0)` is `-` on ℕ.
abbrev pub settle_item : Bool → ArchivedFile → Item → Item
settle_item exists seen item = record item {
  confirmed_exists = exists || item.confirmed_exists;
  derive_required = true;
  cached_file_count = some seen.files_count;
  tasks_in_progress = item.tasks_in_progress - 1;
}

abbrev pub confirm_present : ArchivedFile → Daily → Daily
confirm_present seen daily = record {
  item = settle_item true seen daily.item;
  file = record {
    status = some confirmed_present;
    cached_size = some seen.size;
    cached_metadata = some seen.metadata;
  };
}

-- `zero_cached_ia_metadata` leaves `cached_size`.
abbrev pub confirm_absent : ArchivedFile → Daily → Daily
confirm_absent seen daily = record {
  item = settle_item false seen daily.item;
  file = record (daily.file) { status = some confirmed_absent; cached_metadata = none };
}

abbrev pub is_confirmed_present : Option FileStatus → Bool
is_confirmed_present (some confirmed_present) = true
is_confirmed_present _ = false

abbrev pub is_confirmed_absent : Option FileStatus → Bool
is_confirmed_absent (some confirmed_absent) = true
is_confirmed_absent _ = false

abbrev pub check_present : Limits → Metadata → Sight → ℕ → ℕ → Daily → Confirmed
check_present limits expected none attempts errors daily =
    recheck (ltb errors limits.confirmation_connection_errors) (attempts, errors + 1) daily
check_present limits expected (some seen) attempts errors daily =
    if seen.exists && has_expected seen.metadata expected
    then stay (confirm_present seen daily)
    else stay daily

unfoldable pub confirm_file_uploaded : Limits → Metadata → Sight → ℕ → ℕ → Daily → Confirmed
confirm_file_uploaded limits expected sight attempts errors daily =
    if is_confirmed_present daily.file.status
    then stay daily
    else check_present limits expected sight attempts errors daily

-- The task that is queued after a file was still seen starts again with no connection errors.
abbrev pub check_absent : Limits → Sight → ℕ → ℕ → Daily → Confirmed
check_absent limits none attempts errors daily =
    recheck (ltb errors limits.confirmation_connection_errors) (attempts, errors + 1) daily
check_absent limits (some seen) attempts errors daily =
    if seen.exists
    then recheck (may_retry limits.errors attempts) (attempts + 1, 0) daily
    else stay (confirm_absent seen daily)

unfoldable pub confirm_file_deleted : Limits → Sight → ℕ → ℕ → Daily → Confirmed
confirm_file_deleted limits sight attempts errors daily =
    if is_confirmed_absent daily.file.status
    then stay daily
    else check_absent limits sight attempts errors daily
