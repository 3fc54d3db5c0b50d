-- ===== src/Conversion.antt =====
-- The conversion of a WARC to a WACZ: `convert_warc_to_wacz` of perma_web/perma/celery_tasks.py and
-- `calculate_s3_etag` of perma_web/perma/utils.py. The MD5 function, what js-wacz leaves behind and the etag
-- that S3 reports are arguments; a file is a list of bytes.
pub mod Chunks
pub mod Checked
use mathlib.Core.List.{flatten}
use perma.Prelude.{
  ℕ, zero, suc, ◌+◌, ◌*◌, Bool, true, false, not, ◌&&◌, ◌||◌, Option, none, some, List, [], ◌∷◌,
  map, ltb, leb, ◌==◌, if◌then◌else◌, take, drop, length,
}
use perma.InternetArchive.{Text}
use perma.InternetArchive.Confirm.{same_text}

-- An etag: a digest, or a digest of digests with the number of parts after a hyphen.
pub data Etag : Type 0 where
  whole : Text → Etag
  parts : Text → ℕ → Etag

-- `fp.read(chunk_size)` until there is nothing left, with fuel.
unfoldable pub read_chunks : ℕ → ℕ → Text → List Text
read_chunks zero chunk_size content = []
read_chunks (suc fuel) chunk_size [] = []
read_chunks (suc fuel) chunk_size (byte ∷ bytes) =
    take chunk_size (byte ∷ bytes) ∷ read_chunks fuel chunk_size (drop chunk_size (byte ∷ bytes))

-- Each round reads a byte at least.
abbrev pub chunks : ℕ → Text → List Text
chunks chunk_size content = read_chunks (length content) chunk_size content

-- `full_hash`, which is updated with each chunk, is the hash of the chunks together.
unfoldable pub calculate_s3_etag : (Text → Text) → Text → ℕ → Bool → Etag
calculate_s3_etag md5 content chunk_size multipart_format =
    let read : List Text = chunks chunk_size content in
    if multipart_format
    then parts (md5 (flatten (map md5 read))) (length read)
    else whole (md5 (flatten read))

abbrev pub is_multipart : Etag → Bool
is_multipart (whole digest) = false
is_multipart (parts digest n) = true

-- The block size that is guessed from the number of parts; `mb` is 2 ** 20.
unfoldable pub choose_blocksize : ℕ → Etag → ℕ → ℕ
choose_blocksize mb (whole digest) warc_size = 16 * mb
choose_blocksize mb (parts digest n) warc_size =
    if leb warc_size (8 * mb * n) then 8 * mb else 16 * mb

abbrev pub same_etag : Etag → Etag → Bool
same_etag (whole d) (whole e) = same_text d e
same_etag (parts d m) (parts e n) = same_text d e && m == n
same_etag _ _ = false

unfoldable pub warc_checksums_match : (Text → Text) → ℕ → Etag → ℕ → Text → Bool
warc_checksums_match md5 mb remote warc_size embedded =
    same_etag
      (calculate_s3_etag md5 embedded (choose_blocksize mb remote warc_size) (is_multipart remote))
      remote

-- What js-wacz leaves: an error or not, and the WACZ with the WARC that is embedded in it, if there is one.
pub record Wacz : Type 0 where
  pub size : ℕ
  pub embedded : Text

pub data Failure : Type 0 where
  js_wacz_error no_wacz_produced smaller_than_warc differs_from_source : Failure

-- The end of a conversion, with the WACZ's size on the link, if it is saved and stored.
pub record Converted : Type 0 where
  pub failure : Option Failure
  pub stored : Option ℕ

abbrev pub stored_if : Bool → ℕ → Option ℕ
stored_if true size = some size
stored_if false size = none

abbrev pub judge : (Text → Text) → ℕ → Etag → ℕ → Bool → Wacz → Converted
judge md5 mb remote warc_size save_wacz_on_error wacz =
    if ltb wacz.size warc_size
    then record {
      failure = some smaller_than_warc;
      stored = stored_if save_wacz_on_error wacz.size;
    }
    else if not (warc_checksums_match md5 mb remote warc_size wacz.embedded)
    then record {
      failure = some differs_from_source;
      stored = stored_if save_wacz_on_error wacz.size;
    }
    else record { failure = none; stored = some wacz.size }

abbrev pub judge_any : (Text → Text) → ℕ → Etag → ℕ → Bool → Option Wacz → Converted
judge_any md5 mb remote warc_size save_wacz_on_error none = record {
  failure = some no_wacz_produced;
  stored = none;
}
judge_any md5 mb remote warc_size save_wacz_on_error (some wacz) =
    if wacz.size == 0
    then record { failure = some no_wacz_produced; stored = none }
    else judge md5 mb remote warc_size save_wacz_on_error wacz

-- What the task comes to: the link cannot be played back, and nothing is logged in storage; an exception; or
-- a conversion, logged.
pub data Outcome : Type 0 where
  ineligible raised : Outcome
  logged : Converted → Outcome

-- The end without a WACZ.
abbrev pub without_wacz : Bool → Converted
without_wacz conversion_error = record {
  failure = some (if conversion_error then js_wacz_error else no_wacz_produced);
  stored = none;
}

-- `link.warc_size` is `None`: a comparison with it raises a TypeError, in the choice of the block size or
-- beside the size of the WACZ.
abbrev pub judge_unsized : Etag → Bool → Option Wacz → Outcome
judge_unsized remote conversion_error none = logged (without_wacz conversion_error)
judge_unsized remote conversion_error (some wacz) =
    if wacz.size == 0
    then logged (without_wacz conversion_error)
    else if is_multipart remote
    then raised
    else if conversion_error
    then logged (without_wacz true)
    else raised

-- `warc_size` is the link's column, which is nullable.
unfoldable pub convert_warc_to_wacz :
    (Text → Text) → ℕ → Bool → Etag → Option ℕ → Bool → Bool → Option Wacz → Outcome
convert_warc_to_wacz md5 mb false remote warc_size save_wacz_on_error conversion_error wacz =
    ineligible
convert_warc_to_wacz md5 mb true remote none save_wacz_on_error conversion_error wacz =
    judge_unsized remote conversion_error wacz
convert_warc_to_wacz md5 mb true remote (some warc_size) save_wacz_on_error conversion_error wacz =
    if conversion_error
    then logged (without_wacz true)
    else logged (judge_any md5 mb remote warc_size save_wacz_on_error wacz)
