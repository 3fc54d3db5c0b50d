-- ===== src/Billing/Sync.antt =====
-- What a customer keeps of a subscription: `get_subscription` and `subscription_status` of
-- perma_web/perma/models/customer.py. The answer of the payments service, decoded, is an argument.
pub mod Kept
use perma.Prelude.{
  ℕ, Bool, true, false, not, ◌&&◌, ◌||◌, Option, none, some, List, [], ◌∷◌, ◌==◌, if◌then◌else◌,
  or_else, is_some,
}
use perma.Billing.{
  SubscriptionStatus, Subscription, Period, Limit, limited, unlimited, Purchase, BonusLinks,
  credit_for_purchased_links, subscription_is_active, subscription_has_problem,
}

-- The fields of a customer that the subscription touches; `has_no_limit` is `unlimited`.
pub record Customer : Type 0 where
  pub pk : ℕ
  pub customer_type : ℕ
  pub nonpaying : Bool
  pub in_trial : Bool
  pub cached_subscription_started : Option ℕ
  pub cached_subscription_status : Option SubscriptionStatus
  pub cached_paid_through : Option ℕ
  pub cached_subscription_rate : ℕ
  pub has_no_limit : Bool
  pub link_limit : ℕ
  pub link_limit_period : Period
  pub bonus_links : BonusLinks

pub record PendingChange : Type 0 where
  pub rate : ℕ
  pub link_limit : Limit
  pub effective : Option ℕ

-- `post_data['subscription']`, with its dates decoded by `pp_date_from_post`.
pub record Reported : Type 0 where
  pub status : SubscriptionStatus
  pub paid_through : Option ℕ
  pub frequency : Period
  pub rate : ℕ
  pub link_limit : Limit
  pub link_limit_effective : Option ℕ
  pub pending_change : Option PendingChange

pub record PostData : Type 0 where
  pub customer_pk : ℕ
  pub customer_type : ℕ
  pub purchases : List Purchase
  pub subscription : Option Reported

-- The dictionary that is returned.
pub record Held : Type 0 where
  pub status : Option SubscriptionStatus
  pub frequency : Period
  pub paid_through : Option ℕ
  pub rate : ℕ
  pub link_limit : Limit
  pub pending_change : Option PendingChange

-- The ways out: `PermaPaymentsCommunicationException`, `InvalidTransmissionException`, and a return with
-- the customer as it is then saved.
pub data Fetched : Type 0 where
  unreachable unexpected : Fetched
  fetched : Customer → Option Held → Fetched

abbrev pub limit_of : Customer → Limit
limit_of customer = if customer.has_no_limit then unlimited else limited customer.link_limit

-- The tier fields, which a pending change leaves alone.
abbrev pub set_limit : Limit → Customer → Customer
set_limit unlimited customer = record customer { has_no_limit = true }
set_limit (limited n) customer = record customer { has_no_limit = false; link_limit = n }

abbrev pub set_tier : Reported → Customer → Customer
set_tier reported customer = set_limit reported.link_limit (record customer {
  link_limit_period = reported.frequency;
  cached_subscription_rate = reported.rate;
})

abbrev pub set_status : Reported → Customer → Customer
set_status reported customer = record customer {
  in_trial = false;
  cached_subscription_started =
      if is_some customer.cached_subscription_started
      then customer.cached_subscription_started
      else reported.link_limit_effective;
  cached_subscription_status = some reported.status;
  cached_paid_through = reported.paid_through;
}

-- From the report of a subscription to the `save`.
unfoldable pub store_subscription : Reported → Customer → Customer
store_subscription reported customer =
    if is_some reported.pending_change
    then set_status reported customer
    else set_tier reported (set_status reported customer)

abbrev pub held : Option PendingChange → Customer → Held
held pending_change customer = record {
  status = customer.cached_subscription_status;
  frequency = customer.link_limit_period;
  paid_through = customer.cached_paid_through;
  rate = customer.cached_subscription_rate;
  link_limit = limit_of customer;
  pending_change = pending_change;
}

abbrev pub credit_purchases : List Purchase → Customer → Customer
credit_purchases [] customer = customer
credit_purchases (purchase ∷ purchases) customer = record customer {
  bonus_links = (credit_for_purchased_links (purchase ∷ purchases) customer.bonus_links).1;
}

abbrev pub handle_subscription : Option Reported → Customer → Fetched
handle_subscription none customer =
    fetched (record customer { cached_subscription_started = none }) none
handle_subscription (some reported) customer =
    fetched (store_subscription reported customer)
      (some (held reported.pending_change (store_subscription reported customer)))

-- `get_subscription`; `answer` is none where the request fails.
unfoldable pub get_subscription : Option PostData → Customer → Fetched
get_subscription none customer = if customer.nonpaying then fetched customer none else unreachable
get_subscription (some post_data) customer =
    if customer.nonpaying
    then fetched customer none
    else if not (post_data.customer_pk == customer.pk)
        || not (post_data.customer_type == customer.customer_type)
    then unexpected
    else handle_subscription post_data.subscription (credit_purchases post_data.purchases customer)

-- `subscription_status`: none where an exception goes through.
pub data Standing : Type 0 where
  active problem neither : Standing

abbrev pub standing : ℕ → Option Subscription → Standing
standing now subscription =
    if subscription_is_active now subscription
    then active
    else if subscription_has_problem subscription
    then problem
    else neither

abbrev pub read_held : Option Held → Option Subscription
read_held none = none
read_held (some h) = some (record { status = h.status; paid_through = h.paid_through })

abbrev pub cached : Customer → Subscription
cached customer = record {
  status = customer.cached_subscription_status;
  paid_through = customer.cached_paid_through;
}

abbrev pub standing_of : ℕ → Customer → Fetched → Option Standing
standing_of now customer unreachable = some (standing now (some (cached customer)))
standing_of now customer unexpected = none
standing_of now customer (fetched saved h) = some (standing now (read_held h))

unfoldable pub subscription_status : ℕ → Option PostData → Customer → Option Standing
subscription_status now answer customer =
    standing_of now customer (get_subscription answer customer)
