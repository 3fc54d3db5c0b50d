-- ===== src/Billing/Tiers.antt =====
-- What each kind of tier means for a customer, and which subscriptions count as active.
use perma.Prelude.{ℕ, ◌-◌, ◌≤◌, ◌<◌, ◌≡◌, ◌↔◌, true, false, some, arith}
use perma.Billing.{
  canceled, Subscription, Tier, upgrade, downgrade, limit_leb, same_period, CurrentSubscription,
  is_current, annotate_tier, subscription_is_active,
}

-- The tiers that a customer can move to at once.
abbrev pub IsOpen : Tier → CurrentSubscription → Type 0
IsOpen tier subscription =
    (is_current subscription.status ≡ true)
    × (same_period tier.period subscription.frequency ≡ true)
    × (subscription.has_pending_change ≡ false)

-- A tier that is an upgrade of a subscription costs more and gives more, its charge is the
-- prorated difference of the rates, and the subscription is current, of the same period and with no change pending.
pub annotate_tier_upgrade :
    (prorate : ℕ → ℕ) (tier : Tier) (subscription : CurrentSubscription)
    → (annotate_tier prorate tier (some subscription)).0 ≡ upgrade
    → IsOpen tier subscription
      × (subscription.rate < tier.rate)
      × (limit_leb tier.link_limit subscription.link_limit ≡ false)
      × ((annotate_tier prorate tier (some subscription)).1
          ≡ prorate (tier.rate - subscription.rate))
unfolding annotate_tier
annotate_tier_upgrade prorate tier subscription h =
    (ground arith, ground arith, ground arith, ground arith)

-- A tier that is a downgrade of a subscription costs no more and gives less, charges nothing today, and
-- the subscription is current, of the same period and with no change pending.
pub annotate_tier_downgrade :
    (prorate : ℕ → ℕ) (tier : Tier) (subscription : CurrentSubscription)
    → (annotate_tier prorate tier (some subscription)).0 ≡ downgrade
    → IsOpen tier subscription
      × (tier.rate ≤ subscription.rate)
      × (limit_leb subscription.link_limit tier.link_limit ≡ false)
      × ((annotate_tier prorate tier (some subscription)).1 ≡ 0)
unfolding annotate_tier
annotate_tier_downgrade prorate tier subscription h = ground arith

-- A canceled subscription is active exactly until the time it is paid through.
pub subscription_is_active_canceled :
    (now : ℕ) (subscription : Subscription)
    → subscription.status ≡ some canceled
    → (subscription_is_active now (some subscription) ≡ true)
      ↔ ((end : ℕ) × (subscription.paid_through ≡ some end) × (now ≤ end))
unfolding subscription_is_active
subscription_is_active_canceled now subscription h =
    ((λ a. ground arith), λ (end, e, l). ground arith)
