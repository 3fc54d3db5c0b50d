-- ===== src/Conversion/Checked.antt =====
-- A WACZ is stored if it embeds the WARC that S3 holds, in whatever parts, and only then
-- (`convert_warc_to_wacz` of perma_web/perma/celery_tasks.py).
use mathlib.Core.List.{flatten}
use perma.Prelude.{
  ℕ, zero, suc, ◌+◌, ◌*◌, ◌≤◌, ◌<◌, ◌≡◌, inl, inr, refl, Bool, true, false, Option, none, some, [],
  ◌∷◌, map, ltb, leb, ◌==◌, ==_refl, length, arith, Bool-cases,
}
use perma.InternetArchive.{Text}
use perma.InternetArchive.Confirm.{same_text}
use perma.Conversion.{
  Etag, whole, parts, chunks, calculate_s3_etag, choose_blocksize, same_etag, warc_checksums_match,
  Wacz, Converted, convert_warc_to_wacz, raised, logged, is_multipart,
}
use perma.Conversion.Chunks.{chunks-flatten, chunks-length, chunks-short}

same_text_refl : (text : Text) → same_text text text ≡ true
same_text_refl [] = refl
same_text_refl (c ∷ cs) = rw (==_refl c, same_text_refl cs) refl

same_etag_refl : (etag : Etag) → same_etag etag etag ≡ true
same_etag_refl (whole digest) = same_text_refl digest
same_etag_refl (parts digest n) = rw (same_text_refl digest, ==_refl n) refl

-- How S3 holds a file.
pub data HeldAs : Type 0 where
  in_one_piece in_parts_of_8_mb in_parts_of_16_mb : HeldAs

-- The etag that S3 gives such a file.
abbrev pub s3_etag : (Text → Text) → ℕ → HeldAs → Text → Etag
s3_etag md5 mb in_one_piece content = whole (md5 content)
s3_etag md5 mb in_parts_of_8_mb content =
    let read = chunks (8 * mb) content in parts (md5 (flatten (map md5 read))) (length read)
s3_etag md5 mb in_parts_of_16_mb content =
    let read = chunks (16 * mb) content in parts (md5 (flatten (map md5 read))) (length read)

-- If parts of 8 MB would do for as many as there are of 16 MB, there is one at most, and it is small.
fits : (mb n size : ℕ) → size ≤ 8 * mb * n → 16 * mb * n < size + 16 * mb → size ≤ 8 * mb
fits mb zero size h k = omega arith
fits mb (suc zero) size h k = omega arith
fits mb (suc (suc n)) size h k =
    let a : 8 * mb * suc (suc n) ≡ 8 * mb * n + 16 * mb = grind arith in
    let b : 16 * mb * suc (suc n) ≡ 8 * mb * n + 8 * mb * n + 32 * mb = grind arith in
    absurd (omega arith)

warc_checksums_match-held :
    (md5 : Text → Text) (mb : ℕ) (held : HeldAs) (content : Text)
    → 1 ≤ mb
    → warc_checksums_match md5 mb (s3_etag md5 mb held content) (length content) content ≡ true
unfolding warc_checksums_match calculate_s3_etag choose_blocksize
warc_checksums_match-held md5 mb in_one_piece content h =
    rw (chunks-flatten (16 * mb) content (omega arith)) (same_text_refl (md5 content))
warc_checksums_match-held md5 mb in_parts_of_8_mb content h =
    let covers : leb (length content) (8 * mb * length (chunks (8 * mb) content)) ≡ true =
      ground (arith, chunks-length (8 * mb) content) in
    rw covers (same_etag_refl (s3_etag md5 mb in_parts_of_8_mb content))
warc_checksums_match-held md5 mb in_parts_of_16_mb content h =
    let n = length (chunks (16 * mb) content) in
    elim (Bool-cases (leb (length content) (8 * mb * n))) [
      | inl covers ↦
          let small =
            fits mb n (length content) (ground arith)
              ((chunks-length (16 * mb) content (omega arith)).1) in
          rw (covers, chunks-short (8 * mb) (16 * mb) content small (omega arith))
            (same_etag_refl (s3_etag md5 mb in_parts_of_16_mb content))
      | inr more ↦ rw more (same_etag_refl (s3_etag md5 mb in_parts_of_16_mb content))
    ]

-- A link that can be played back, with the size of its WARC on it, is converted: if js-wacz ends without an
-- error, and the WACZ is not empty, is no smaller than the WARC and embeds its bytes, then the conversion
-- succeeds and the WACZ is stored, whether S3 holds the WARC in one piece or in parts of 8 or of 16 MB;
-- the block size that the code guesses makes the etags equal. Without a size on the link, the task
-- raises an exception.
pub convert_warc_to_wacz-held :
    (md5 : Text → Text) (mb : ℕ) (held : HeldAs) (content : Text) (save_wacz_on_error : Bool)
    (size : ℕ)
    → 1 ≤ mb
    → 1 ≤ size
    → length content ≤ size
    → let convert = λ (warc_size : Option ℕ).
      convert_warc_to_wacz md5 mb true
        (s3_etag md5 mb held content)
        warc_size
        save_wacz_on_error
        false
        (some (record { size = size; embedded = content })) in
      (convert (some (length content)) ≡ logged (record { failure = none; stored = some size }))
      × (convert none ≡ raised)
unfolding convert_warc_to_wacz
convert_warc_to_wacz-held md5 mb held content save_wacz_on_error size h k enough =
    let there : (size == 0) ≡ false = ground arith in
    let large : ltb size (length content) ≡ false = ground arith in
    (
      rw (there, large, warc_checksums_match-held md5 mb held content h) refl,
      rw there (elim (Bool-cases (is_multipart (s3_etag md5 mb held content))) [
        | inl multipart ↦ rw multipart refl
        | inr whole_file ↦ rw whole_file refl
      ]),
    )

-- Unless broken ones are kept, a WACZ that is stored is one that js-wacz made without an error, no
-- smaller than the WARC, whose size is on the link, with a WARC in it whose etag is that of the source;
-- and no failure is logged.
pub convert_warc_to_wacz-stored :
    (md5 : Text → Text) (mb : ℕ) (can_play_back : Bool) (remote : Etag) (warc_size : Option ℕ)
    (conversion_error : Bool) (wacz : Wacz) (converted : Converted) (size : ℕ)
    → convert_warc_to_wacz md5 mb can_play_back remote warc_size false conversion_error (some wacz)
      ≡ logged converted
    → converted.stored ≡ some size
    → (converted.failure ≡ none)
      × (conversion_error ≡ false)
      × ((n : ℕ) × (warc_size ≡ some n)
          × (n ≤ size)
          × (warc_checksums_match md5 mb remote n wacz.embedded ≡ true))
unfolding convert_warc_to_wacz
convert_warc_to_wacz-stored md5 mb false remote warc_size conversion_error wacz converted size e s =
    cc
convert_warc_to_wacz-stored md5 mb true remote none conversion_error wacz converted size e s =
    ground arith
convert_warc_to_wacz-stored md5 mb true remote (some n) conversion_error wacz converted size e s =
    (ground arith, ground arith, (n, refl, ground arith, ground arith))
