-- ===== src/Conversion/Chunks.antt =====
-- How a file is read in chunks (`calculate_s3_etag` of perma_web/perma/utils.py).
use mathlib.Core.List.{flatten}
use perma.Prelude.{
  ℕ, zero, suc, ◌+◌, ◌-◌, ◌*◌, ◌≤◌, ◌<◌, ◌≡◌, ◌⊎◌, inl, inr, refl, ap, ◌∙◌, [], ◌∷◌, ◌++◌, take,
  drop, length, arith,
}
use native.Mathlib.Decide.{dec_lt}
use perma.InternetArchive.{Text}
use perma.Conversion.{read_chunks, chunks}

take-drop : (n : ℕ) (bytes : Text) → take n bytes ++ drop n bytes ≡ bytes
take-drop zero bytes = refl
take-drop (suc n) [] = refl
take-drop (suc n) (byte ∷ bytes) = ap (λ rest. byte ∷ rest) (take-drop n bytes)

length-drop : (n : ℕ) (bytes : Text) → length (drop n bytes) ≡ length bytes - n
length-drop zero bytes = omega arith
length-drop (suc n) [] = omega arith
length-drop (suc n) (byte ∷ bytes) = omega (arith, length-drop n bytes)

-- Enough fuel reads every byte, in order.
read_chunks-flatten :
    (fuel chunk_size : ℕ) (content : Text)
    → 1 ≤ chunk_size
    → length content ≤ fuel
    → flatten (read_chunks fuel chunk_size content) ≡ content
unfolding read_chunks flatten
read_chunks-flatten zero chunk_size [] h enough = refl
read_chunks-flatten zero chunk_size (byte ∷ bytes) h enough = absurd (omega arith)
read_chunks-flatten (suc fuel) chunk_size [] h enough = refl
read_chunks-flatten (suc fuel) chunk_size (byte ∷ bytes) h enough =
    ap (λ rest. take chunk_size (byte ∷ bytes) ++ rest)
      (read_chunks-flatten fuel chunk_size (drop chunk_size (byte ∷ bytes)) h
        (omega (arith, length-drop chunk_size (byte ∷ bytes))))
    ∙ take-drop chunk_size (byte ∷ bytes)

pub chunks-flatten :
    (chunk_size : ℕ) (content : Text)
    → 1 ≤ chunk_size
    → flatten (chunks chunk_size content) ≡ content
chunks-flatten chunk_size content h =
    read_chunks-flatten (length content) chunk_size content h (omega arith)

read_chunks-le-length :
    (fuel chunk_size : ℕ) (content : Text)
    → length content ≤ fuel
    → 1 ≤ chunk_size
    → length (read_chunks fuel chunk_size content) ≤ length content
unfolding read_chunks
read_chunks-le-length zero chunk_size content enough h = omega arith
read_chunks-le-length (suc fuel) chunk_size [] enough h = omega arith
read_chunks-le-length (suc fuel) chunk_size (byte ∷ bytes) enough h =
    let left = length-drop chunk_size (byte ∷ bytes) in
    omega (
      arith,
      read_chunks-le-length fuel chunk_size (drop chunk_size (byte ∷ bytes)) (omega arith) h,
    )

leb_total : (a b : ℕ) → (a ≤ b) ⊎ (b < a)
leb_total a b = elim (dec_lt b a) [ yes less ↦ inr less | no more ↦ inl (omega arith) ]

mul_none : (a k : ℕ) → k ≤ 0 → a * k ≡ 0
mul_none a zero h = omega arith
mul_none a (suc k) h = absurd (omega arith)

mul_more : (a k : ℕ) → a * suc k ≡ a * k + a
mul_more a k = grind arith

-- The number of chunks is that of parts of the chunk size that cover the file.
read_chunks-length :
    (fuel chunk_size : ℕ) (content : Text)
    → 1 ≤ chunk_size
    → length content ≤ fuel
    → (length content ≤ chunk_size * length (read_chunks fuel chunk_size content))
      × (chunk_size * length (read_chunks fuel chunk_size content) < length content + chunk_size)
unfolding read_chunks
read_chunks-length zero chunk_size [] h enough = (omega arith, omega arith)
read_chunks-length zero chunk_size (byte ∷ bytes) h enough = absurd (omega arith)
read_chunks-length (suc fuel) chunk_size [] h enough = (omega arith, omega arith)
read_chunks-length (suc fuel) chunk_size (byte ∷ bytes) h enough =
    let rest = drop chunk_size (byte ∷ bytes) in
    let left = length-drop chunk_size (byte ∷ bytes) in
    let ih = read_chunks-length fuel chunk_size rest h (omega arith) in
    let few = read_chunks-le-length fuel chunk_size rest (omega arith) h in
    let k = length (read_chunks fuel chunk_size rest) in
    let more = mul_more chunk_size k in
    elim (leb_total chunk_size (length (byte ∷ bytes))) [
      | inl long ↦ (omega arith, omega arith)
      | inr short ↦
          let none_left = mul_none chunk_size k (omega arith) in (omega arith, omega arith)
    ]

pub chunks-length :
    (chunk_size : ℕ) (content : Text)
    → 1 ≤ chunk_size
    → (length content ≤ chunk_size * length (chunks chunk_size content))
      × (chunk_size * length (chunks chunk_size content) < length content + chunk_size)
chunks-length chunk_size content h =
    read_chunks-length (length content) chunk_size content h (omega arith)

take-all : (n : ℕ) (bytes : Text) → length bytes ≤ n → take n bytes ≡ bytes
take-all zero [] h = refl
take-all zero (byte ∷ bytes) h = absurd (omega arith)
take-all (suc n) [] h = refl
take-all (suc n) (byte ∷ bytes) h = ap (λ rest. byte ∷ rest) (take-all n bytes (omega arith))

drop-all : (n : ℕ) (bytes : Text) → length bytes ≤ n → drop n bytes ≡ []
drop-all zero [] h = refl
drop-all zero (byte ∷ bytes) h = absurd (omega arith)
drop-all (suc n) [] h = refl
drop-all (suc n) (byte ∷ bytes) h = drop-all n bytes (omega arith)

read_chunks-nil : (fuel chunk_size : ℕ) → read_chunks fuel chunk_size [] ≡ []
unfolding read_chunks
read_chunks-nil zero chunk_size = refl
read_chunks-nil (suc fuel) chunk_size = refl

-- A file that fits into two chunk sizes is read in the same way with both.
pub chunks-short :
    (m n : ℕ) (content : Text)
    → length content ≤ m
    → length content ≤ n
    → chunks m content ≡ chunks n content
unfolding read_chunks
chunks-short m n [] h k = refl
chunks-short m n (byte ∷ bytes) h k =
    rw
      (
        take-all m (byte ∷ bytes) h,
        take-all n (byte ∷ bytes) k,
        drop-all m (byte ∷ bytes) h,
        drop-all n (byte ∷ bytes) k,
        read_chunks-nil (length bytes) m,
        read_chunks-nil (length bytes) n,
      )
      refl
