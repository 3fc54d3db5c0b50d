-- ===== src/LinkApi/Privacy.antt =====
-- Who may make a link public again: the rules of the API (perma_web/api/serializers.py) beside those of
-- `can_toggle_private` (perma_web/perma/models/user.py).
use perma.Prelude.{◌≡◌, refl, Bool, true, false, not, Option, none, some, is_some, arith}
use perma.Access.{
  Organizations, User, Link, PrivateReason, domain, meta_perma, meta, by_user, takedown, failure,
  flagged, old_policy, can_edit, can_toggle_private, user_may_undo,
}
use perma.LinkApi.{
  PrivacyData, PrivacyRow, same_bool, is_settled_by_staff, validate_privacy_update,
  validate_privacy_new, save_privacy,
}

-- A private link has a reason, and a public one has none.
abbrev pub has_reason_if_private : PrivacyRow → Bool
has_reason_if_private link = same_bool link.is_private (is_some link.private_reason)

abbrev pub accepted : Option PrivacyData → PrivacyRow → PrivacyRow
accepted none link = link
accepted (some request) link = save_privacy request link

-- A link is private exactly if it has a reason, after it is made, and again after any update of a user who
-- is not staff, accepted or not.
pub validate_privacy-has_reason_if_private :
    (made update : PrivacyData) (link : PrivacyRow)
    → has_reason_if_private link ≡ true
    → (has_reason_if_private (
          save_privacy
            (validate_privacy_new made)
            (record { is_private = false; private_reason = none }))
        ≡ true)
      × (has_reason_if_private (accepted (validate_privacy_update false link update) link) ≡ true)
unfolding validate_privacy_new validate_privacy_update save_privacy
validate_privacy-has_reason_if_private made update link h = (ground arith, ground arith)

-- Which of the two rules lets the user make the link public: that of `can_toggle_private`, and the API's.
abbrev pub verdicts : Option PrivateReason → Bool × Bool
verdicts none = (false, true)
verdicts (some by_user) = (true, true)
verdicts (some meta) = (false, true)
verdicts (some old_policy) = (true, false)
verdicts (some domain) = (false, false)
verdicts (some meta_perma) = (false, false)
verdicts (some takedown) = (false, false)
verdicts (some failure) = (false, false)
verdicts (some flagged) = (false, false)

abbrev pub make_public : PrivacyData
make_public = record { is_private = some false; private_reason = none }

abbrev pub row_of : Link → PrivacyRow
row_of link = record { is_private = link.is_private; private_reason = link.private_reason }

reasons-verdicts :
    (table : Organizations) (reason : Option PrivateReason)
    → (user_may_undo table reason ≡ (verdicts reason).0)
      × (not (is_settled_by_staff reason) ≡ (verdicts reason).1)
reasons-verdicts table none = (refl, refl)
reasons-verdicts table (some domain) = (refl, refl)
reasons-verdicts table (some meta_perma) = (refl, refl)
reasons-verdicts table (some meta) = (refl, refl)
reasons-verdicts table (some by_user) = (refl, refl)
reasons-verdicts table (some takedown) = (refl, refl)
reasons-verdicts table (some failure) = (refl, refl)
reasons-verdicts table (some flagged) = (refl, refl)
reasons-verdicts table (some old_policy) = (refl, refl)

-- Whether a user who is not staff but may edit a private link may make it public: for the reason "user"
-- both `can_toggle_private` and the API say so; for "meta" and for no reason only the API does, which
-- accepts the request; for "old_policy" only `can_toggle_private` does; for any other reason neither.
pub can_toggle_private-verdicts :
    (table : Organizations) (editor : User) (link : Link)
    → editor.is_staff ≡ false
    → can_edit table editor link ≡ true
    → link.is_private ≡ true
    → (can_toggle_private table editor link ≡ (verdicts link.private_reason).0)
      × (is_some (validate_privacy_update false (row_of link) make_public)
          ≡ (verdicts link.private_reason).1)
unfolding can_toggle_private validate_privacy_update
can_toggle_private-verdicts table editor link regular edits private =
    let agree = reasons-verdicts table link.private_reason in
    let undone = agree.0 in let settled = agree.1 in (ground arith, ground arith)
