-- ===== src/Examples/Guids.antt =====
-- Names of links.

use perma.Prelude.{◌↔◌, ℕ, ◌≡◌, ◌<◌, refl, true, false, none, List, [], ◌∷◌}
use perma.Guid.{new_guid}
use perma.Guid.Fresh.{IsDraw, new_guid-none, is_free}

-- 'a2b3-C4d5'
abbrev typed : List ℕ
typed = b'a' ∷ b'2' ∷ b'b' ∷ b'3' ∷ b'-' ∷ b'C' ∷ b'4' ∷ b'd' ∷ b'5' ∷ []

-- 'A2B3C4D5'
abbrev drawn : List ℕ
drawn = b'A' ∷ b'2' ∷ b'B' ∷ b'3' ∷ b'C' ∷ b'4' ∷ b'D' ∷ b'5' ∷ []

drawn-IsDraw : IsDraw drawn
drawn-IsDraw = (refl, (refl, (refl, (refl, (refl, (refl, (refl, (refl, (refl, tt)))))))))

-- A database in which every name is taken.
new_guid-none_example :
    (new_guid (λ i. drawn) (λ guid. true) ≡ none)
    ↔ ((j : ℕ) → j < 100 → is_free (λ i. drawn) (λ guid. true) j ≡ false)
new_guid-none_example = new_guid-none (λ i. drawn) (λ guid. true)
