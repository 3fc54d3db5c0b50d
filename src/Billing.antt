-- ===== src/Billing.antt =====
-- Paid accounts: `CustomerModel` of perma_web/perma/models/customer.py, and what the payments service
-- tells it. The service's answers are arguments; times are seconds, and rates are numbers of mills.
pub mod Tiers
pub mod Purchases
pub mod Transmission
pub mod Sync
use perma.Prelude.{
  ℕ, ◌+◌, ◌-◌, Bool, true, false, not, ◌&&◌, ◌||◌, Option, none, some, List, [], ◌∷◌, ltb, leb,
  ◌==◌, if◌then◌else◌, or_else,
}

pub data SubscriptionStatus : Type 0 where
  current cancellation_requested hold canceled other_status : SubscriptionStatus

-- The two keys that the tests read.
pub record Subscription : Type 0 where
  pub status : Option SubscriptionStatus
  pub paid_through : Option ℕ

-- `ACTIVE_SUBSCRIPTION_STATUSES`
abbrev pub is_active_status : Option SubscriptionStatus → Bool
is_active_status (some current) = true
is_active_status (some cancellation_requested) = true
is_active_status _ = false

abbrev pub is_canceled : Option SubscriptionStatus → Bool
is_canceled (some canceled) = true
is_canceled _ = false

-- `PROBLEM_SUBSCRIPTION_STATUSES`
abbrev pub is_problem_status : Option SubscriptionStatus → Bool
is_problem_status (some hold) = true
is_problem_status _ = false

abbrev pub paid_until : ℕ → Option ℕ → Bool
paid_until now none = false
paid_until now (some paid_through) = leb now paid_through

unfoldable pub subscription_is_active : ℕ → Option Subscription → Bool
subscription_is_active now none = false
subscription_is_active now (some subscription) =
    is_active_status subscription.status
    || is_canceled subscription.status && paid_until now subscription.paid_through

unfoldable pub subscription_has_problem : Option Subscription → Bool
subscription_has_problem none = false
subscription_has_problem (some subscription) = is_problem_status subscription.status

pub data Period : Type 0 where
  once monthly annually : Period

abbrev pub same_period : Period → Period → Bool
same_period once once = true
same_period monthly monthly = true
same_period annually annually = true
same_period _ _ = false

-- `link_limit` of a tier or a subscription: `float('Inf')` for 'unlimited'.
pub data Limit : Type 0 where
  limited : ℕ → Limit
  unlimited : Limit

abbrev pub limit_eq : Limit → Limit → Bool
limit_eq (limited m) (limited n) = m == n
limit_eq (limited m) unlimited = false
limit_eq unlimited (limited n) = false
limit_eq unlimited unlimited = true

abbrev pub limit_leb : Limit → Limit → Bool
limit_leb (limited m) (limited n) = leb m n
limit_leb (limited m) unlimited = true
limit_leb unlimited (limited n) = false
limit_leb unlimited unlimited = true

pub record Tier : Type 0 where
  pub period : Period
  pub link_limit : Limit
  -- `base_rate * Decimal(rate_ratio)`
  pub rate : ℕ

-- The dictionary that `get_subscription` returns.
pub record CurrentSubscription : Type 0 where
  pub status : SubscriptionStatus
  pub frequency : Period
  pub rate : ℕ
  pub link_limit : Limit
  pub has_pending_change : Bool

pub data TierType : Type 0 where
  upgrade downgrade selected unavailable : TierType

abbrev pub is_current : SubscriptionStatus → Bool
is_current current = true
is_current _ = false

-- The branches of `annotate_tier`: the tier's type and today's charge. `prorate` is the product with
-- `prorated_ratio`, the share of the period that is left.
unfoldable pub annotate_tier : (ℕ → ℕ) → Tier → Option CurrentSubscription → TierType × ℕ
annotate_tier prorate tier none = (upgrade, prorate tier.rate)
annotate_tier prorate tier (some subscription) =
    if not (is_current subscription.status)
      || not (same_period tier.period subscription.frequency)
      || subscription.has_pending_change
    then (unavailable, 0)
    else if tier.rate == subscription.rate && limit_eq tier.link_limit subscription.link_limit
    then (selected, 0)
    else if leb tier.rate subscription.rate
    then if limit_leb subscription.link_limit tier.link_limit
      then (unavailable, 0)
      else (downgrade, 0)
    else if limit_leb tier.link_limit subscription.link_limit
    then (unavailable, 0)
    else (upgrade, prorate (tier.rate - subscription.rate))

-- One purchase of bonus links, and whether the payments service confirms its acknowledgement.
pub record Purchase : Type 0 where
  pub link_quantity : ℕ
  pub acknowledged : Bool

-- `bonus_links` of the object in memory, and of its row.
pub record BonusLinks : Type 0 where
  pub memory : Option ℕ
  pub row : Option ℕ

-- What one pass of the loop adds to the total, and what it leaves in the object and the row: a failure
-- rolls the row back, and not the object.
abbrev pub credited_after : ℕ → Purchase → ℕ
credited_after credited purchase =
    if purchase.acknowledged then credited + purchase.link_quantity else credited

abbrev pub links_after : Purchase → BonusLinks → BonusLinks
links_after purchase s =
    let raised : Option ℕ = some (or_else s.memory 0 + purchase.link_quantity) in
    record s { memory = raised; row = if purchase.acknowledged then raised else s.row }

-- The loop of `credit_for_purchased_links`.
unfoldable pub credit_from : ℕ → List Purchase → BonusLinks → ℕ × BonusLinks
credit_from credited [] s = (credited, s)
credit_from credited (purchase ∷ purchases) s =
    credit_from (credited_after credited purchase) purchases (links_after purchase s)

unfoldable pub credit_for_purchased_links : List Purchase → BonusLinks → ℕ × BonusLinks
credit_for_purchased_links = credit_from 0
