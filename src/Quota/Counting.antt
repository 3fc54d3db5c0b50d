-- ===== src/Quota/Counting.antt =====
-- How the count of personal links reacts to the changes that `post` and `delete` make.
use perma.Prelude.{
  indicator, zero, suc, ℕ, ◌+◌, ◌-◌, ◌≡◌, refl, Bool, true, false, not, ◌&&◌, Option, none, some,
  List, [], ◌∷◌, ltb, ◌==◌, or_else, truthy, count_if, arith, All, ap,
}
use perma.Billing.{Period, once, monthly, annually, Limit, limited, unlimited}
use perma.Quota.{Calendar, Account, LinkRow, mark_deleted, charged, is_counted, refunded}

-- What an account may still spend: its links of the period, and its bonus links.
abbrev pub spare : Limit × Period × ℕ → Limit
spare (limited n, period, bonus) = limited (n + bonus)
spare (unlimited, period, bonus) = unlimited

abbrev pub one_less : Limit → Limit
one_less (limited n) = limited (n - 1)
one_less unlimited = unlimited

abbrev pub can_spend : Limit → Bool
can_spend (limited n) = ltb 0 n
can_spend unlimited = true

pub uncounted : (n : ℕ) → 0 + n ≡ n
uncounted n = omega arith

-- Deleting a row that no other row shares a GUID with leaves the counts of the others.
abbrev pub HasOtherGuid : ℕ → LinkRow → Type 0
HasOtherGuid guid link = (link.guid == guid) ≡ false

pub count_if-mark_deleted :
    (calendar : Calendar) (today : ℕ) (period : Period) (account : Account) (guid : ℕ)
    (links : List LinkRow)
    → All (HasOtherGuid guid) links
    → count_if (is_counted calendar today period account) (mark_deleted guid links)
      ≡ count_if (is_counted calendar today period account) links
count_if-mark_deleted calendar today period account guid [] h = refl
count_if-mark_deleted calendar today period account guid (link ∷ links) (h, hs) =
    rw (h, count_if-mark_deleted calendar today period account guid links hs) refl

-- Being charged changes none of the fields that the count reads.
pub count_if-charged :
    (calendar : Calendar) (today : ℕ) (period : Period) (account : Account) (bonus : Bool)
    (links : List LinkRow)
    → count_if (is_counted calendar today period (charged bonus account)) links
      ≡ count_if (is_counted calendar today period account) links
count_if-charged calendar today once account true links = refl
count_if-charged calendar today monthly account true links = refl
count_if-charged calendar today annually account true links = refl
count_if-charged calendar today period account false links = refl

pub count_if-refunded :
    (calendar : Calendar) (today : ℕ) (period : Period) (account : Account) (bonus : Bool)
    (links : List LinkRow)
    → count_if (is_counted calendar today period (refunded bonus (charged bonus account))) links
      ≡ count_if (is_counted calendar today period account) links
count_if-refunded calendar today once account true links = refl
count_if-refunded calendar today monthly account true links = refl
count_if-refunded calendar today annually account true links = refl
count_if-refunded calendar today period account false links = refl

-- A bonus link that is charged and given back.
pub bonus_restored :
    (bonus_links : Option ℕ) (personal positive : Bool)
    → true ≡ (personal && truthy bonus_links && not positive)
    → or_else bonus_links 0 - 1 + 1 ≡ or_else bonus_links 0
bonus_restored none personal positive b = ground arith
bonus_restored (some zero) personal positive b = ground arith
bonus_restored (some (suc n)) personal positive b = ground arith

-- The arithmetic of a spent bonus link and of a spent regular link.
pub bonus_spent :
    (limit counted : ℕ) (bonus_links : Option ℕ) (personal : Bool)
    → true ≡ (personal && truthy bonus_links && not (ltb 0 (limit - counted)))
    → limited (limit - (indicator false + counted) + (or_else bonus_links 0 - 1))
      ≡ limited (limit - counted + or_else bonus_links 0 - 1)
bonus_spent limit counted none personal b = ground arith
bonus_spent limit counted (some zero) personal b = ground arith
bonus_spent limit counted (some (suc n)) personal b = ap limited (omega arith)

pub regular_spent :
    (limit counted : ℕ) (bonus_links : Option ℕ)
    → false ≡ (truthy bonus_links && not (ltb 0 (limit - counted)))
    → ltb 0 (limit - counted + or_else bonus_links 0) ≡ true
    → limited (limit - (indicator true + counted) + or_else bonus_links 0)
      ≡ limited (limit - counted + or_else bonus_links 0 - 1)
regular_spent limit counted none b c = ap limited (ground arith)
regular_spent limit counted (some zero) b c = ap limited (ground arith)
regular_spent limit counted (some (suc n)) b c = ap limited (ground arith)
