-- ===== src/Examples/Payments.antt =====
-- Tiers, subscriptions, purchases and transmissions.
use perma.Prelude.{◌/◌, ℕ, ◌≡◌, ◌+◌, refl, true, false, some, [], ◌∷◌, ◌++◌, arith, or_else, none}
use perma.Billing.{
  monthly, limited, Tier, CurrentSubscription, current, canceled, Subscription, Purchase,
  BonusLinks, credit_for_purchased_links,
}
use perma.Billing.Sync.{Customer, Reported, PostData, store_subscription, credit_purchases}
use perma.Billing.Purchases.{credit_for_purchased_links_excess}
use perma.Billing.Transmission.{
  Fields, Retrieved, process_perma_payments_transmission,
  process_perma_payments_transmission-Retrieved,
}

abbrev small : Tier
small = record { period = monthly; link_limit = limited 10; rate = 1000 }

abbrev large : Tier
large = record { period = monthly; link_limit = limited 100; rate = 2500 }

abbrev subscribed_to : Tier → CurrentSubscription
subscribed_to tier = record {
  status = current;
  frequency = tier.period;
  rate = tier.rate;
  link_limit = tier.link_limit;
  has_pending_change = false;
}

-- Half of the period is left.
abbrev half : ℕ → ℕ
half rate = rate / 2

abbrev ending : Subscription
ending = record { status = some canceled; paid_through = some 500 }

abbrev confirmed : Purchase
confirmed = record { link_quantity = 10; acknowledged = true }

abbrev unconfirmed : Purchase
unconfirmed = record { link_quantity = 100; acknowledged = false }

abbrev links : BonusLinks
links = record { memory = some 3; row = some 3 }

credit_for_purchased_links_excess_example :
    or_else (credit_for_purchased_links ((unconfirmed ∷ []) ++ (confirmed ∷ [])) links).1.row 0
    ≡ 3 + 100 + 10
credit_for_purchased_links_excess_example =
    credit_for_purchased_links_excess (unconfirmed ∷ []) confirmed links refl refl

-- Key 0 is 'timestamp'; the transmission was stamped long ago.
abbrev post_data : Fields
post_data = (0, 5) ∷ (1, 42) ∷ []

process_perma_payments_transmission-Retrieved_example : Retrieved post_data (1 ∷ []) (
    process_perma_payments_transmission
      (λ (text : ℕ). some post_data)
      0
      60
      1000000
      (some 9)
      (1 ∷ []))
process_perma_payments_transmission-Retrieved_example =
    process_perma_payments_transmission-Retrieved (λ (text : ℕ). some post_data) 0 60 1000000 9
      post_data 5 (1 ∷ []) refl refl (omega arith)

-- A trial customer whom the payments service reports as a subscriber.
abbrev customer : Customer
customer = record {
  pk = 1;
  customer_type = 0;
  nonpaying = false;
  in_trial = true;
  cached_subscription_started = none;
  cached_subscription_status = none;
  cached_paid_through = none;
  cached_subscription_rate = 0;
  has_no_limit = false;
  link_limit = 10;
  link_limit_period = monthly;
  bonus_links = links;
}

abbrev reported : Reported
reported = record {
  status = current;
  paid_through = some 900;
  frequency = monthly;
  rate = 2500;
  link_limit = limited 100;
  link_limit_effective = some 300;
  pending_change = none;
}

abbrev answer : PostData
answer = record {
  customer_pk = 1;
  customer_type = 0;
  purchases = confirmed ∷ [];
  subscription = some reported;
}

-- The customer as it is saved, with the bonus links of the purchase.
abbrev subscriber : Customer
subscriber = store_subscription reported (credit_purchases (confirmed ∷ []) customer)
