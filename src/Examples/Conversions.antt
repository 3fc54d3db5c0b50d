-- ===== src/Examples/Conversions.antt =====
-- Conversions of small files, with blocks of small sizes.
use mathlib.Core.List.{flatten}
use perma.Prelude.{
  ℕ, ◌≡◌, ◌≤◌, refl, Bool, true, false, Option, none, some, [], ◌∷◌, length, arith, take,
}
use perma.InternetArchive.{Text}
use perma.Conversion.{
  whole, Wacz, raised, logged, Converted, differs_from_source, chunks, read_chunks,
  calculate_s3_etag, choose_blocksize, warc_checksums_match, convert_warc_to_wacz,
}
use perma.Conversion.Checked.{
  s3_etag, in_parts_of_8_mb, convert_warc_to_wacz-held, convert_warc_to_wacz-stored,
}

-- Not MD5, but a function.
abbrev digest : Text → Text
digest = take 2

abbrev content : Text
content = 1 ∷ 2 ∷ 3 ∷ 4 ∷ 5 ∷ 6 ∷ 7 ∷ 8 ∷ 9 ∷ 10 ∷ []

abbrev converted : Converted
converted = record { failure = none; stored = some 12 }

abbrev wacz : Wacz
wacz = record { size = 12; embedded = content }

convert_warc_to_wacz-held_example :
    let convert = λ (warc_size : Option _).
      convert_warc_to_wacz digest 1 true
        (s3_etag digest 1 in_parts_of_8_mb content)
        warc_size
        false
        false
        (some wacz) in
    (convert (some (length content)) ≡ logged converted) × (convert none ≡ raised)
convert_warc_to_wacz-held_example =
    convert_warc_to_wacz-held digest 1 in_parts_of_8_mb content false 12 (omega arith) (omega arith)
      (omega arith)

convert_warc_to_wacz-stored_example :
    (◌≡◌ {A = Option _} converted.failure none)
    × (◌≡◌ {A = Bool} false false)
    × ((n : ℕ) × (◌≡◌ {A = Option ℕ} (some 10) (some n))
        × (n ≤ 12)
        × (warc_checksums_match digest 1 (whole (1 ∷ 2 ∷ [])) n content ≡ true))
unfolding convert_warc_to_wacz warc_checksums_match calculate_s3_etag read_chunks choose_blocksize
    flatten
convert_warc_to_wacz-stored_example =
    convert_warc_to_wacz-stored digest 1 true (whole (1 ∷ 2 ∷ [])) (some 10) false wacz converted 12
      refl refl

two_parts : chunks 8 content ≡ (1 ∷ 2 ∷ 3 ∷ 4 ∷ 5 ∷ 6 ∷ 7 ∷ 8 ∷ []) ∷ (9 ∷ 10 ∷ []) ∷ []
unfolding read_chunks
two_parts = refl

another_file :
    convert_warc_to_wacz digest 1 true
      (whole (1 ∷ 2 ∷ []))
      (some 10)
      false
      false
      (some (record { size = 12; embedded = 3 ∷ [] }))
    ≡ logged (record { failure = some differs_from_source; stored = none })
unfolding convert_warc_to_wacz warc_checksums_match calculate_s3_etag read_chunks choose_blocksize
    flatten
another_file = refl
