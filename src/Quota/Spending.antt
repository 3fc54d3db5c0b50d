-- ===== src/Quota/Spending.antt =====
-- What creating a link costs its creator, and what deleting it gives back.
use perma.Prelude.{
  ℕ, ◌+◌, ◌-◌, ◌≡◌, refl, Bool, true, false, not, ◌&&◌, List, ◌∷◌, if◌then◌else◌, or_else, count_if,
  arith, inl, inr, Bool-cases, All, ap, sym, ==_refl, ◌∙◌,
}
use perma.Billing.{Period, Limit, limited}
use perma.Quota.{
  remove, Calendar, Defaults, Account, LinkRow, Destination, Posted, refused, created, is_personal,
  get_links_remaining, link_creation_allowed, post, mark_deleted, in_window, applicable_period,
  spends_bonus_link, charged, new_row, is_counted, is_positive, links_remaining_in_period,
  lacks_limit, applicable_limit,
}
use perma.Quota.Counting.{
  spare, one_less, can_spend, uncounted, HasOtherGuid, count_if-mark_deleted, count_if-charged,
  count_if-refunded, bonus_restored, bonus_spent, regular_spent,
}

module _ (calendar : Calendar) (defaults : Defaults) (active : Bool) (today : ℕ) where
  -- The window of the account's period is open now: it counts a link created at this time.
  abbrev pub IsOpenNow : Account → Type 0
  IsOpenNow account =
      in_window calendar today (applicable_period defaults active account) account today ≡ true

  abbrev remaining : Account → List LinkRow → Limit
  remaining account links = (get_links_remaining calendar defaults active today account links).0

  abbrev posted : ℕ → Destination → Bool → Account → List LinkRow → Posted
  posted = post calendar defaults active today

  allowed_iff :
      (account : Account) (links : List LinkRow)
      → link_creation_allowed calendar defaults active today account links ≡ (
          not account.frozen
          && can_spend (spare (get_links_remaining calendar defaults active today account links)))
  unfolding link_creation_allowed get_links_remaining links_remaining_in_period
  allowed_iff account links = elim (Bool-cases (lacks_limit active account)) [
    | inl e ↦ rw e (ground arith)
    | inr e ↦ rw e (ground arith)
  ]

  is_counted-new_row :
      (guid : ℕ) (folder : Destination) (account : Account) (bonus : Bool)
      → is_personal folder ≡ true
      → IsOpenNow account
      → is_counted calendar today
          (applicable_period defaults active account)
          account
          (new_row calendar defaults active today guid folder bonus account)
        ≡ not bonus
  is_counted-new_row guid folder account bonus p o = rw (o, ==_refl account.id) (ground arith)

  bonus_link-is_counted :
      (guid : ℕ) (folder : Destination) (account reader : Account) (period : Period)
      → is_counted calendar today period reader
          (new_row calendar defaults active today guid folder true account)
        ≡ false
  bonus_link-is_counted guid folder account reader period = ground arith

  shared_link-is_counted :
      (guid : ℕ) (folder : Destination) (account : Account)
      → is_personal folder ≡ false
      → is_counted calendar today
          (applicable_period defaults active account)
          account
          (new_row calendar defaults active today guid folder false account)
        ≡ false
  shared_link-is_counted guid folder account p = ground arith

  abbrev counted : Account → List LinkRow → ℕ
  counted account links =
      count_if (is_counted calendar today (applicable_period defaults active account) account) links

  spare_limited :
      (account : Account) (links : List LinkRow)
      → lacks_limit active account ≡ false
      → spare (get_links_remaining calendar defaults active today account links)
        ≡ limited (
            applicable_limit defaults active account
            - counted account links
            + or_else account.bonus_links 0)
  unfolding get_links_remaining links_remaining_in_period
  spare_limited account links e = rw e refl

  charge_one :
      (guid : ℕ) (folder : Destination) (account : Account) (links : List LinkRow) (bonus : Bool)
      → is_personal folder ≡ true
      → IsOpenNow account
      → bonus ≡ spends_bonus_link calendar defaults active today folder account links
      → can_spend (spare (get_links_remaining calendar defaults active today account links)) ≡ true
      → spare (
          get_links_remaining calendar defaults active today
            (charged bonus account)
            (new_row calendar defaults active today guid folder bonus account ∷ links))
        ≡ one_less (spare (get_links_remaining calendar defaults active today account links))
  unfolding get_links_remaining links_remaining_in_period
  charge_one guid folder account links true p o b c =
      elim (Bool-cases (lacks_limit active account)) [
        | inl e ↦ rw e refl
        | inr e ↦ rw e (
            rw
              (count_if-charged calendar today (applicable_period defaults active account) account
                true links)
              (rw
                (bonus_link-is_counted guid folder account (charged true account)
                  (applicable_period defaults active account))
                (bonus_spent (applicable_limit defaults active account) (counted account links)
                  account.bonus_links (is_personal folder) (b ∙ rw e refl))))
      ]
  charge_one guid folder account links false p o b c =
      elim (Bool-cases (lacks_limit active account)) [
        | inl e ↦ rw e refl
        | inr e ↦ rw e (
            rw (is_counted-new_row guid folder account false p o) (
              regular_spent (applicable_limit defaults active account)
                (count_if
                  (is_counted calendar today (applicable_period defaults active account) account)
                  links)
                account.bonus_links (b ∙ rw (p, e) refl)
                (ap can_spend (sym (spare_limited account links e)) ∙ c)))
      ]

  -- A link that is not personal is not charged, and is not counted.
  charge_none :
      (guid : ℕ) (folder : Destination) (account : Account) (links : List LinkRow) (bonus : Bool)
      → is_personal folder ≡ false
      → bonus ≡ spends_bonus_link calendar defaults active today folder account links
      → spare (
          get_links_remaining calendar defaults active today
            (charged bonus account)
            (new_row calendar defaults active today guid folder bonus account ∷ links))
        ≡ spare (get_links_remaining calendar defaults active today account links)
  unfolding get_links_remaining links_remaining_in_period
  charge_none guid folder account links true p b =
      (let absurdity : true ≡ false = b ∙ rw p refl in ground arith)
  charge_none guid folder account links false p b =
      rw (shared_link-is_counted guid folder account p, uncounted (counted account links)) refl

  abbrev pub is_created : Posted → Bool
  is_created (refused refusal) = false
  is_created (created account links) = true

  -- What is left to the account after a request.
  abbrev pub spare_after : Account → List LinkRow → Posted → Limit
  spare_after account links (refused refusal) =
      spare (get_links_remaining calendar defaults active today account links)
  spare_after account links (created account' links') =
      spare (get_links_remaining calendar defaults active today account' links')

  -- A request is granted exactly if the folder is not a top-level sponsored folder, the data are valid,
  -- and, for a personal link, the account is not frozen and has a link to spend, and else the registrar
  -- may create links and the folder is not read-only.
  pub post_granted :
      (guid : ℕ) (folder : Destination) (valid : Bool) (account : Account) (links : List LinkRow)
      → is_created (posted guid folder valid account links) ≡ (
          not folder.is_sponsored_root_folder
          && valid
          && (if is_personal folder
              then not account.frozen
                && can_spend
                    (spare (get_links_remaining calendar defaults active today account links))
              else folder.registrar_allows && not folder.read_only))
  unfolding post
  post_granted guid folder valid account links = rw (sym (allowed_iff account links)) (ground arith)

  -- If the window of the account's period is open now, a personal link that is granted costs its
  -- creator exactly one of the links that are left, bonus links among them; any other request,
  -- granted or refused, costs nothing.
  pub post_cost :
      (guid : ℕ) (folder : Destination) (valid : Bool) (account : Account) (links : List LinkRow)
      → IsOpenNow account
      → spare_after account links (posted guid folder valid account links) ≡ (
          if is_personal folder && is_created (posted guid folder valid account links)
          then one_less (spare (get_links_remaining calendar defaults active today account links))
          else spare (get_links_remaining calendar defaults active today account links))
  unfolding post
  post_cost guid folder valid account links o =
      let shared =
        charge_none guid folder account links
          (spends_bonus_link calendar defaults active today folder account links) in
      let personal =
        charge_one guid folder account links
          (spends_bonus_link calendar defaults active today folder account links) in
      let allowed = allowed_iff account links in ground arith

  -- Removing a link that was created, whose GUID no other link has, gives back what its creation
  -- cost: after both, as much is left as before.
  pub remove_post :
      (guid : ℕ) (folder : Destination) (account : Account) (links : List LinkRow) (bonus : Bool)
      → bonus ≡ spends_bonus_link calendar defaults active today folder account links
      → All (HasOtherGuid guid) links
      → (let after =
            remove
              (new_row calendar defaults active today guid folder bonus account)
              (charged bonus account)
              (new_row calendar defaults active today guid folder bonus account ∷ links) in
          spare (get_links_remaining calendar defaults active today after.0 after.1))
        ≡ spare (get_links_remaining calendar defaults active today account links)
  unfolding remove get_links_remaining links_remaining_in_period
  remove_post guid folder account links true b h =
      rw
        (
          ==_refl guid,
          count_if-refunded calendar today (applicable_period defaults active account) account true
              (mark_deleted guid links),
          count_if-mark_deleted calendar today (applicable_period defaults active account) account
              guid links h,
          uncounted (counted account links),
          bonus_restored account.bonus_links (is_personal folder)
              (is_positive (get_links_remaining calendar defaults active today account links).0) b,
        )
        refl
  remove_post guid folder account links false b h =
      rw
        (
          ==_refl guid,
          count_if-mark_deleted calendar today (applicable_period defaults active account) account
              guid links h,
          uncounted (counted account links),
        )
        refl
