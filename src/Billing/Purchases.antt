-- ===== src/Billing/Purchases.antt =====
-- What crediting a list of purchases does to the customer's bonus links.
use perma.Prelude.{
  ℕ, ◌+◌, ◌≡◌, refl, ◌∙◌, true, false, List, [], ◌∷◌, ◌++◌, arith, if◌then◌else◌, or_else, All, ap,
}
use perma.Billing.{
  Purchase, BonusLinks, credit_from, credit_for_purchased_links, credited_after, links_after,
}

abbrev pub quantity : List Purchase → ℕ
quantity [] = 0
quantity (purchase ∷ purchases) = purchase.link_quantity + quantity purchases

-- The links whose purchases were acknowledged.
abbrev pub acknowledged_quantity : List Purchase → ℕ
acknowledged_quantity [] = 0
acknowledged_quantity (purchase ∷ purchases) =
    (if purchase.acknowledged then purchase.link_quantity else 0) + acknowledged_quantity purchases

abbrev pub IsAcknowledged : Purchase → Type 0
IsAcknowledged purchase = purchase.acknowledged ≡ true

abbrev pub IsRefused : Purchase → Type 0
IsRefused purchase = purchase.acknowledged ≡ false

-- The object and its row agree.
abbrev pub InStep : BonusLinks → Type 0
InStep s = s.memory ≡ s.row

credited_total :
    (credited : ℕ) (purchases : List Purchase) (s : BonusLinks)
    → (credit_from credited purchases s).0 ≡ credited + acknowledged_quantity purchases
unfolding credit_from
credited_total credited [] s = omega arith
credited_total credited (purchase ∷ purchases) s =
    credited_total (credited_after credited purchase) purchases (links_after purchase s)
    ∙ ground arith

-- Refused purchases leave the row, and raise the object's count all the same.
refused_row :
    (credited : ℕ) (bad : List Purchase) (s : BonusLinks)
    → All IsRefused bad
    → (credit_from credited bad s).1.row ≡ s.row
unfolding credit_from
refused_row credited [] s b = refl
refused_row credited (purchase ∷ bad) s (b, bs) =
    refused_row (credited_after credited purchase) bad (links_after purchase s) bs ∙ rw b

acknowledged_row :
    (credited : ℕ) (good bad : List Purchase) (s : BonusLinks)
    → All IsAcknowledged good
    → All IsRefused bad
    → InStep s
    → or_else (credit_from credited (good ++ bad) s).1.row 0 ≡ or_else s.row 0 + quantity good
unfolding credit_from
acknowledged_row credited [] bad s g b e =
    ap (λ row. or_else row 0) (refused_row credited bad s b) ∙ omega arith
acknowledged_row credited (purchase ∷ good) bad s (g, gs) bs e =
    acknowledged_row (credited_after credited purchase) good bad (links_after purchase s) gs bs
      (rw g)
    ∙ ground arith

-- The function reports the links whose purchases were acknowledged.
pub credit_for_purchased_links_total :
    (purchases : List Purchase) (s : BonusLinks)
    → (credit_for_purchased_links purchases s).0 ≡ acknowledged_quantity purchases
unfolding credit_for_purchased_links
credit_for_purchased_links_total purchases s = credited_total 0 purchases s ∙ omega arith

-- If the object and its row agree, and no purchase is acknowledged after one that was refused, the
-- row is raised by the links of the acknowledged purchases and no others.
pub credit_for_purchased_links_row :
    (good bad : List Purchase) (s : BonusLinks)
    → All IsAcknowledged good
    → All IsRefused bad
    → InStep s
    → or_else (credit_for_purchased_links (good ++ bad) s).1.row 0 ≡ or_else s.row 0 + quantity good
unfolding credit_for_purchased_links
credit_for_purchased_links_row good bad s = acknowledged_row 0 good bad s

memory_total :
    (credited : ℕ) (purchases : List Purchase) (s : BonusLinks)
    → or_else (credit_from credited purchases s).1.memory 0
      ≡ or_else s.memory 0 + quantity purchases
unfolding credit_from
memory_total credited [] s = omega arith
memory_total credited (purchase ∷ purchases) s =
    memory_total (credited_after credited purchase) purchases (links_after purchase s) ∙ omega arith

credit_from-append :
    (credited : ℕ) (xs ys : List Purchase) (s : BonusLinks)
    → credit_from credited (xs ++ ys) s
      ≡ credit_from (credit_from credited xs s).0 ys (credit_from credited xs s).1
unfolding credit_from
credit_from-append credited [] ys s = refl
credit_from-append credited (purchase ∷ xs) ys s =
    credit_from-append (credited_after credited purchase) xs ys (links_after purchase s)

-- If the object and its row agree, and the last purchase is acknowledged, the row is raised by the
-- links of all the purchases, the refused ones among them.
pub credit_for_purchased_links_excess :
    (purchases : List Purchase) (last : Purchase) (s : BonusLinks)
    → IsAcknowledged last
    → InStep s
    → or_else (credit_for_purchased_links (purchases ++ (last ∷ [])) s).1.row 0
      ≡ or_else s.row 0 + quantity purchases + last.link_quantity
unfolding credit_for_purchased_links
credit_for_purchased_links_excess purchases last s a e =
    rw (credit_from-append 0 purchases (last ∷ []) s) (
      unfold credit_from in
      rw a (omega (arith, memory_total 0 purchases s, ap (λ row. or_else row 0) e)))
