-- ===== src/Guid.antt =====
-- The names of links: `Link.get_canonical_guid`, the choice of a new name in `Link.save`, and
-- `Link.guid_as_path`, of perma_web/perma/models/link.py. A text is the list of its ASCII codes.
pub mod Text
pub mod Canonical
pub mod Fresh
pub mod Path
use perma.Prelude.{
  ℕ, zero, suc, ◌-◌, Bool, true, false, not, ◌&&◌, ◌||◌, Option, none, some, List, [], ◌∷◌, ◌++◌,
  map, reverse, ltb, leb, ◌==◌, if◌then◌else◌, length, take, drop, filter_if, any_of,
}

abbrev pub in_range : ℕ → ℕ → ℕ → Bool
in_range lo hi c = leb lo c && leb c hi

abbrev pub is_digit : ℕ → Bool
is_digit = in_range b'0' b'9'

-- `[A-Z]`
abbrev pub is_capital : ℕ → Bool
is_capital = in_range b'A' b'Z'

-- `str.upper` on one ASCII code.
abbrev pub upper : ℕ → ℕ
upper c = if in_range b'a' b'z' c then c - 32 else c

-- `[0-9A-Z]`
abbrev pub is_guid_code : ℕ → Bool
is_guid_code c = is_digit c || is_capital c

abbrev pub hyphen : ℕ
hyphen = b'-'

-- `separator.join(parts)` for a separator of one code.
abbrev pub join : ℕ → List (List ℕ) → List ℕ
join separator [] = []
join separator (part ∷ []) = part
join separator (part ∷ next ∷ parts) = part ++ (separator ∷ join separator (next ∷ parts))

-- `re.sub('[^0-9A-Z]+', '', guid.upper())`
abbrev pub stripped : List ℕ → List ℕ
stripped guid = filter_if is_guid_code (map upper guid)

-- `text[start:stop]`
abbrev pub slice : List ℕ → ℕ → ℕ → List ℕ
slice text start stop = take (stop - start) (drop start text)

-- `[text[max(i - 4, 0):i] for i in range(n, 0, -4)]`: `-` on ℕ is the `max`, and the range ends at 0.
-- `fuel` bounds the rounds; n rounds are enough.
abbrev pub guid_parts : ℕ → List ℕ → ℕ → List (List ℕ)
guid_parts fuel text zero = []
guid_parts zero text (suc n) = []
guid_parts (suc fuel) text (suc n) =
    slice text (suc n - 4) (suc n) ∷ guid_parts fuel text (suc n - 4)

abbrev pub hyphenated : List ℕ → List ℕ
hyphenated text = join hyphen (reverse (guid_parts (length text) text (length text)))

-- The 9, 10 and 11 character names of old links, with no hyphen.
abbrev pub is_legacy : List ℕ → Bool
is_legacy guid = not (any_of (λ c. c == hyphen) guid) && leb 9 (length guid)

-- `guid.replace('O', '0', 1)` where the first character is 'O'.
abbrev pub repair_zero : List ℕ → List ℕ
repair_zero [] = []
repair_zero (c ∷ guid) = if c == b'O' then b'0' ∷ guid else c ∷ guid

unfoldable pub get_canonical_guid : List ℕ → List ℕ
get_canonical_guid guid = if is_legacy guid then repair_zero guid else hyphenated (stripped guid)

-- `re.search(r'^[A-Z]{4}', guid)`
abbrev pub starts_with_four_letters : List ℕ → Bool
starts_with_four_letters (a ∷ b ∷ c ∷ d ∷ rest) =
    is_capital a && is_capital b && is_capital c && is_capital d
starts_with_four_letters _ = false

-- The `for … in range(…)` of `Link.save`: `draw i` is the i-th random string and `exists` asks the
-- database. `none` is the exception after the last attempt.
unfoldable pub pick_guid : ℕ → (ℕ → List ℕ) → (List ℕ → Bool) → ℕ → Option (List ℕ)
pick_guid zero draw exists i = none
pick_guid (suc attempts) draw exists i =
    let rest = pick_guid attempts draw exists (suc i) in
    let guid = get_canonical_guid (draw i) in
    if not (starts_with_four_letters guid) && not (exists guid) then some guid else rest

abbrev pub max_attempts : ℕ
max_attempts = 100

unfoldable pub new_guid : (ℕ → List ℕ) → (List ℕ → Bool) → Option (List ℕ)
new_guid draw exists = pick_guid max_attempts draw exists 0

-- `Link.GUID_CHARACTER_SET`: no 0, 1, I or O.
abbrev pub in_guid_character_set : ℕ → Bool
in_guid_character_set c = is_guid_code c && not (leb c b'1' || c == b'I' || c == b'O')

-- `re.sub('[^0-9A-Za-z]+', '', self.guid)`
abbrev pub alphanumerics : List ℕ → List ℕ
alphanumerics = filter_if (λ c. is_guid_code c || in_range b'a' b'z' c)

-- `[text[i:i + 2] for i in range(0, len(text), 2)]`
abbrev pub pairs : List ℕ → List (List ℕ)
pairs [] = []
pairs (a ∷ []) = (a ∷ []) ∷ []
pairs (a ∷ b ∷ text) = (a ∷ b ∷ []) ∷ pairs text

-- `parts[:-1]`
abbrev pub all_but_last : List (List ℕ) → List (List ℕ)
all_but_last [] = []
all_but_last (part ∷ []) = []
all_but_last (part ∷ next ∷ parts) = part ∷ all_but_last (next ∷ parts)

unfoldable pub guid_as_path : List ℕ → List ℕ
guid_as_path guid = join b'/' (all_but_last (pairs (alphanumerics guid)))
