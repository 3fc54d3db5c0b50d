-- ===== src/Quota.antt =====
-- The personal quota: `links_remaining_in_period`, `get_links_remaining` and `link_creation_allowed` of
-- perma_web/perma/models/user.py, and the parts of `post` and `delete` of perma_web/api/views/links.py that
-- spend it and give it back. Calendar arithmetic (dateutil) is a parameter, times are seconds.
pub mod Counting
pub mod Spending
use perma.Prelude.{
  ℕ, ◌+◌, ◌-◌, Bool, true, false, not, ◌&&◌, ◌||◌, Option, none, some, List, [], ◌∷◌, ltb, leb,
  ◌==◌, if◌then◌else◌, or_else, truthy, count_if,
}
use perma.Billing.{Period, once, monthly, annually, Limit, limited, unlimited}

-- `relativedelta`, and the test that a time is in this month of this year or later in the year.
pub record Calendar : Type 0 where
  pub month_before : ℕ → ℕ
  pub year_before : ℕ → ℕ
  pub this_month : ℕ → ℕ → Bool

-- `DEFAULT_CREATE_LIMIT_PERIOD` and `DEFAULT_CREATE_LIMIT`.
pub record Defaults : Type 0 where
  pub period : Period
  pub limit : ℕ

-- The fields of a user that the quota reads.
pub record Account : Type 0 where
  pub id : ℕ
  pub has_no_limit : Bool
  pub link_limit : ℕ
  pub link_limit_period : Period
  pub bonus_links : Option ℕ
  pub in_trial : Bool
  pub nonpaying : Bool
  pub frozen : Bool
  pub cached_subscription_started : Option ℕ
  pub cached_paid_through : Option ℕ

-- A row of the links table: `organization_id` and the `sponsored_by` of its folder are read as tests.
pub record LinkRow : Type 0 where
  pub guid : ℕ
  pub created_by : ℕ
  pub in_organization : Bool
  pub is_sponsored : Bool
  pub bonus_link : Bool
  pub user_deleted : Bool
  pub creation_timestamp : ℕ

abbrev pub is_between : ℕ → ℕ → ℕ → Bool
is_between start today time = leb start time && leb time today

-- The time filters of `links_remaining_in_period`.
abbrev pub in_window : Calendar → ℕ → Period → Account → ℕ → Bool
in_window calendar today once account time = elim (account.cached_subscription_started) [
  | some started ↦ is_between started today time
  | none ↦ true
]
in_window calendar today monthly account time = elim (account.cached_paid_through) [
  | some paid_through ↦ is_between (calendar.month_before paid_through) today time
  | none ↦ calendar.this_month today time
]
in_window calendar today annually account time = elim (account.cached_paid_through) [
  | some paid_through ↦ is_between (calendar.year_before paid_through) today time
  | none ↦ is_between (calendar.year_before today) today time
]

-- `personal_links`, of the default manager, that the user created in the window.
abbrev pub is_counted : Calendar → ℕ → Period → Account → LinkRow → Bool
is_counted calendar today period account link =
    not link.user_deleted
    && not link.in_organization
    && not link.is_sponsored
    && not link.bonus_link
    && link.created_by == account.id
    && in_window calendar today period account link.creation_timestamp

unfoldable pub links_remaining_in_period :
    Calendar → ℕ → Period → ℕ → Bool → Account → List LinkRow → Limit
links_remaining_in_period calendar today period limit no_limit account links =
    if no_limit
    then unlimited
    else limited (limit - count_if (is_counted calendar today period account) links)

-- The period, limit and lack of a limit that apply; `active` is whether `subscription_status` is 'active'.
abbrev pub is_lapsed : Bool → Account → Bool
is_lapsed active account = not account.in_trial && not account.nonpaying && not active

abbrev pub applicable_period : Defaults → Bool → Account → Period
applicable_period defaults active account =
    if is_lapsed active account then defaults.period else account.link_limit_period

abbrev pub applicable_limit : Defaults → Bool → Account → ℕ
applicable_limit defaults active account =
    if is_lapsed active account then defaults.limit else account.link_limit

abbrev pub lacks_limit : Bool → Account → Bool
lacks_limit active account = if is_lapsed active account then false else account.has_no_limit

abbrev pub is_positive : Limit → Bool
is_positive (limited n) = ltb 0 n
is_positive unlimited = true

-- The folder of a request: its owner's tests, and `link_creation_allowed` of the owning registrar.
pub record Destination : Type 0 where
  pub in_organization : Bool
  pub is_sponsored : Bool
  pub is_sponsored_root_folder : Bool
  pub read_only : Bool
  pub registrar_allows : Bool

pub data Refusal : Type 0 where
  sponsored_root usage_limit registrar_needs_attention read_only_folder invalid_data : Refusal

pub data Posted : Type 0 where
  refused : Refusal → Posted
  created : Account → List LinkRow → Posted

abbrev pub is_personal : Destination → Bool
is_personal folder = not folder.in_organization && not folder.is_sponsored

abbrev pub charged : Bool → Account → Account
charged true account = record account { bonus_links = some (or_else account.bonus_links 0 - 1) }
charged false account = account

module _ (calendar : Calendar) (defaults : Defaults) (active : Bool) (today : ℕ) where
  unfoldable pub get_links_remaining : Account → List LinkRow → Limit × Period × ℕ
  get_links_remaining account links = (
    links_remaining_in_period calendar today (applicable_period defaults active account)
        (applicable_limit defaults active account) (lacks_limit active account) account links,
    applicable_period defaults active account,
    or_else account.bonus_links 0,
  )

  unfoldable pub link_creation_allowed : Account → List LinkRow → Bool
  link_creation_allowed account links =
      if account.frozen
      then false
      else is_positive (get_links_remaining account links).0
        || ltb 0 (get_links_remaining account links).2

  -- The user has bonus links left and no others.
  abbrev pub spends_bonus_link : Destination → Account → List LinkRow → Bool
  spends_bonus_link folder account links =
      is_personal folder
      && truthy account.bonus_links
      && not (is_positive (get_links_remaining account links).0)

  abbrev pub new_row : ℕ → Destination → Bool → Account → LinkRow
  new_row guid folder bonus account = record {
    guid = guid;
    created_by = account.id;
    in_organization = folder.in_organization;
    is_sponsored = folder.is_sponsored;
    bonus_link = bonus;
    user_deleted = false;
    creation_timestamp = today;
  }

  -- `post` from the choice of the folder to the transaction; `valid` is the serializer's answer.
  unfoldable pub post : ℕ → Destination → Bool → Account → List LinkRow → Posted
  post guid folder valid account links =
      if folder.is_sponsored_root_folder
      then refused sponsored_root
      else if is_personal folder && not (link_creation_allowed account links)
      then refused usage_limit
      else if not (is_personal folder) && not folder.registrar_allows
      then refused registrar_needs_attention
      else if not (is_personal folder) && folder.read_only
      then refused read_only_folder
      else if not valid
      then refused invalid_data
      else created (charged (spends_bonus_link folder account links) account)
          (new_row guid folder (spends_bonus_link folder account links) account ∷ links)

-- The transaction of `delete`, for a link that the account created: the link is marked, and a bonus link
-- is given back.
abbrev pub mark_deleted : ℕ → List LinkRow → List LinkRow
mark_deleted guid [] = []
mark_deleted guid (link ∷ links) =
    record link { user_deleted = if link.guid == guid then true else link.user_deleted }
    ∷ mark_deleted guid links

abbrev pub refunded : Bool → Account → Account
refunded true account = record account { bonus_links = some (or_else account.bonus_links 0 + 1) }
refunded false account = account

unfoldable pub remove : LinkRow → Account → List LinkRow → Account × List LinkRow
remove link account links = (refunded link.bonus_link account, mark_deleted link.guid links)

pub data Deleted : Type 0 where
  permission_denied capture_in_progress : Deleted
  removed : Account × List LinkRow → Deleted

-- `can_delete` is the user's permission, `capturing` whether the link's capture job is in progress.
unfoldable pub delete : Bool → Bool → LinkRow → Account → List LinkRow → Deleted
delete can_delete capturing link account links =
    if not can_delete
    then permission_denied
    else if capturing
    then capture_in_progress
    else removed (remove link account links)
