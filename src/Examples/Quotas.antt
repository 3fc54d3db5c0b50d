-- ===== src/Examples/Quotas.antt =====
-- A trial user with two links for good, who has made both and has one bonus link.
use perma.Prelude.{
  ℕ, ◌≡◌, ◌-◌, leb, refl, true, false, ◌&&◌, none, some, List, [], ◌∷◌, if◌then◌else◌,
}
use perma.Billing.{once}
use perma.Quota.{
  remove, Calendar, Defaults, Account, LinkRow, Destination, post, charged, new_row,
  get_links_remaining, links_remaining_in_period,
}
use perma.Quota.Counting.{spare, one_less}
use perma.Quota.Spending.{post_cost, remove_post, is_created, spare_after}

abbrev calendar : Calendar
calendar = record {
  month_before = λ time. time - 30;
  year_before = λ time. time - 365;
  this_month = λ today time. leb (today - 30) time;
}

abbrev defaults : Defaults
defaults = record { period = once; limit = 10 }

abbrev account : Account
account = record {
  id = 1;
  has_no_limit = false;
  link_limit = 2;
  link_limit_period = once;
  bonus_links = some 1;
  in_trial = true;
  nonpaying = false;
  frozen = false;
  cached_subscription_started = none;
  cached_paid_through = none;
}

abbrev old_row : ℕ → LinkRow
old_row guid = record {
  guid = guid;
  created_by = 1;
  in_organization = false;
  is_sponsored = false;
  bonus_link = false;
  user_deleted = false;
  creation_timestamp = 900;
}

-- Both links of the period are used, so that a bonus link is next.
abbrev rows : List LinkRow
rows = old_row 20 ∷ old_row 21 ∷ []

abbrev personal_folder : Destination
personal_folder = record {
  in_organization = false;
  is_sponsored = false;
  is_sponsored_root_folder = false;
  read_only = false;
  registrar_allows = true;
}

post_cost_example :
    spare_after calendar defaults false 1000 account rows
      (post calendar defaults false 1000 22 personal_folder true account rows)
    ≡ (if true
          && is_created calendar defaults false 1000
              (post calendar defaults false 1000 22 personal_folder true account rows)
        then one_less (spare (get_links_remaining calendar defaults false 1000 account rows))
        else spare (get_links_remaining calendar defaults false 1000 account rows))
post_cost_example = post_cost calendar defaults false 1000 22 personal_folder true account rows refl

remove_post_example :
    (let after =
        remove
          (new_row calendar defaults false 1000 22 personal_folder true account)
          (charged true account)
          (new_row calendar defaults false 1000 22 personal_folder true account ∷ rows) in
      spare (get_links_remaining calendar defaults false 1000 after.0 after.1))
    ≡ spare (get_links_remaining calendar defaults false 1000 account rows)
unfolding get_links_remaining links_remaining_in_period
remove_post_example =
    remove_post calendar defaults false 1000 22 personal_folder account rows true refl
      (refl, (refl, tt))
