-- ===== src/Billing/Sync/Kept.antt =====
-- What is left after a report of the payments service.
use mathlib.Core.Path.{subst}
use perma.Prelude.{
  ap, sym, ℕ, ◌≡◌, refl, ◌∙◌, false, not, ◌||◌, Option, none, some, List, [], ◌∷◌, ◌==◌,
  if◌then◌else◌, is_some, Bool-cases, inl, inr,
}
use perma.Billing.{Purchase, Limit, limited, unlimited}
use perma.Billing.Sync.{
  unexpected, read_held, handle_subscription, Customer, Reported, PostData, Held, Fetched, fetched,
  unreachable, limit_of, set_status, set_limit, store_subscription, get_subscription,
  subscription_status, standing, standing_of, cached, held, credit_purchases,
}

-- The limit that was stored is read back.
limit_of-set_limit :
    (limit : Limit) (customer : Customer) → limit_of (set_limit limit customer) ≡ limit
limit_of-set_limit (limited n) customer = refl
limit_of-set_limit unlimited customer = refl

started_again :
    (started effective : Option ℕ)
    → (let kept = if is_some started then started else effective in
        if is_some kept then kept else effective)
      ≡ (if is_some started then started else effective)
started_again none none = refl
started_again none (some t) = refl
started_again (some t) effective = refl

status_again :
    (reported : Reported) (customer : Customer)
    → set_status reported (set_status reported customer) ≡ set_status reported customer
status_again reported customer =
    ap (λ x. record (set_status reported customer) { cached_subscription_started = x })
      (started_again customer.cached_subscription_started reported.link_limit_effective)

abbrev with_tier : Reported → Limit → Customer → Customer
with_tier reported limit customer = set_limit limit (record customer {
  link_limit_period = reported.frequency;
  cached_subscription_rate = reported.rate;
})

tier_again :
    (reported : Reported) (limit : Limit) (customer : Customer)
    → with_tier reported limit
        (set_status reported (with_tier reported limit (set_status reported customer)))
      ≡ with_tier reported limit (set_status reported customer)
tier_again reported (limited n) customer =
    ap
      (λ x. record (with_tier reported (limited n) (set_status reported customer)) {
        cached_subscription_started = x;
      })
      (started_again customer.cached_subscription_started reported.link_limit_effective)
tier_again reported unlimited customer =
    ap
      (λ x. record (with_tier reported unlimited (set_status reported customer)) {
        cached_subscription_started = x;
      })
      (started_again customer.cached_subscription_started reported.link_limit_effective)

held-set_limit :
    (limit : Limit) (customer : Customer)
    → held none (set_limit limit customer) ≡ record (held none customer) { link_limit = limit }
held-set_limit (limited n) customer = refl
held-set_limit unlimited customer = refl

set_limit-nonpaying :
    (limit : Limit) (customer : Customer)
    → (set_limit limit customer).nonpaying ≡ customer.nonpaying
set_limit-nonpaying (limited n) customer = refl
set_limit-nonpaying unlimited customer = refl

store_subscription-nonpaying :
    (reported : Reported) (customer : Customer)
    → (store_subscription reported customer).nonpaying ≡ customer.nonpaying
unfolding store_subscription
store_subscription-nonpaying reported customer =
    elim (Bool-cases (is_some reported.pending_change)) [
      | inl p ↦ rw p refl
      | inr p ↦ rw p (
          set_limit-nonpaying reported.link_limit (record (set_status reported customer) {
            link_limit_period = reported.frequency;
            cached_subscription_rate = reported.rate;
          }))
    ]

credit_purchases-nonpaying :
    (purchases : List Purchase) (customer : Customer)
    → (credit_purchases purchases customer).nonpaying ≡ customer.nonpaying
credit_purchases-nonpaying [] customer = refl
credit_purchases-nonpaying (purchase ∷ purchases) customer = refl

-- What the cache and the answer have in common.
abbrev pub Agrees : Fetched → Type 0
Agrees unreachable = Unit
Agrees unexpected = Unit
Agrees (fetched saved h) = (read_held h ≡ some (cached saved)) × (saved.nonpaying ≡ false)

get_subscription-Agrees :
    (post_data : PostData) (reported : Reported) (customer : Customer)
    → customer.nonpaying ≡ false
    → post_data.subscription ≡ some reported
    → Agrees (get_subscription (some post_data) customer)
unfolding get_subscription
get_subscription-Agrees post_data reported customer paying sub =
    let credited = credit_purchases post_data.purchases customer in
    let handled : Agrees (handle_subscription post_data.subscription credited) =
      subst (λ o. Agrees (handle_subscription o credited)) (sym sub)
        (
          refl,
          store_subscription-nonpaying reported credited
              ∙ credit_purchases-nonpaying post_data.purchases customer
              ∙ paying,
        ) in
    let foreign =
      not (post_data.customer_pk == customer.pk)
      || not (post_data.customer_type == customer.customer_type) in
    subst
      (λ b. Agrees (
        if b
        then fetched customer none
        else if foreign
        then unexpected
        else handle_subscription post_data.subscription credited))
      (sym paying)
      (elim (Bool-cases foreign) [
        | inl bad ↦
            subst
              (λ b.
                Agrees
                  (if b then unexpected else handle_subscription post_data.subscription credited))
              (sym bad) tt
        | inr good ↦
            subst
              (λ b.
                Agrees
                  (if b then unexpected else handle_subscription post_data.subscription credited))
              (sym good) handled
      ])

-- Storing a subscription's report again changes nothing.
pub store_subscription-store_subscription :
    (reported : Reported) (customer : Customer)
    → store_subscription reported (store_subscription reported customer)
      ≡ store_subscription reported customer
unfolding store_subscription
store_subscription-store_subscription reported customer =
    elim (Bool-cases (is_some reported.pending_change)) [
      | inl p ↦ rw p (status_again reported customer)
      | inr p ↦ rw p (tier_again reported reported.link_limit customer)
    ]

-- A report with no pending change is stored as it is: status, period, dates, rate and limit that
-- are held are the reported ones.
pub held-store_subscription :
    (reported : Reported) (customer : Customer)
    → reported.pending_change ≡ none
    → held none (store_subscription reported customer) ≡ record {
      status = some reported.status;
      frequency = reported.frequency;
      paid_through = reported.paid_through;
      rate = reported.rate;
      link_limit = reported.link_limit;
      pending_change = none;
    }
unfolding store_subscription
held-store_subscription reported customer p =
    let none_pending : is_some reported.pending_change ≡ false = ap is_some p in
    rw none_pending (
      held-set_limit reported.link_limit (record (set_status reported customer) {
        link_limit_period = reported.frequency;
        cached_subscription_rate = reported.rate;
      }))

-- For a paying customer, after an answer with a subscription, the standing that is read from the
-- cache while the service cannot be reached is the one that the answer gave, at the same time.
pub subscription_status_cached :
    (now : ℕ) (post_data : PostData) (reported : Reported) (customer saved : Customer)
    (h : Option Held)
    → customer.nonpaying ≡ false
    → post_data.subscription ≡ some reported
    → get_subscription (some post_data) customer ≡ fetched saved h
    → subscription_status now none saved ≡ subscription_status now (some post_data) customer
unfolding subscription_status get_subscription
subscription_status_cached now post_data reported customer saved h paying sub got =
    let (same, saved_paying) : Agrees (fetched saved h) =
      subst Agrees got (get_subscription-Agrees post_data reported customer paying sub) in
    ap (λ b. standing_of now saved (if b then fetched saved none else unreachable)) saved_paying
    ∙ ap (λ o. some (standing now o)) (sym same)
    ∙ ap (standing_of now customer) (sym got)
