-- ===== src/Paper/Fifo.antt =====
-- The lots of a sale are taken in their order: each gives what the earlier ones could not.
use quant_agent.Prelude.{
  ℕ, ◌+◌, ◌-◌, ◌<◌, min, ◌≡◌, refl, sym, ap, ◌∙◌, String, true, false, List, [], ◌∷◌, ◌++◌, map,
  All, if◌then◌else◌, ok, ◌==◌, arith, text_leb_trans, text_leb_total, IsOrdered, All-sort_by,
  sort_by-IsOrdered,
}
use quant_agent.Canonical.{Hashing}
use quant_agent.Paper.Contracts.{Platform, PaperPositionLot}
use quant_agent.Paper.Lots.{lot_leb, sorted_lots, free, rest_of_lot, consume_sell_lots}
use quant_agent.Paper.LotFacts.{IsLot, hashed, IsLot-facts}
use quant_agent.Paper.Sales.{left_of, sold, no_more}
use quant_agent.Paper.SaleFacts.{consume_sell_lots-sold}

lot_leb_trans :
    (a b c : PaperPositionLot) → lot_leb a b ≡ true → lot_leb b c ≡ true → lot_leb a c ≡ true
unfolding lot_leb
lot_leb_trans a b c h k = ground (arith, text_leb_trans a.lot_id b.lot_id c.lot_id)

lot_leb_total : (a b : PaperPositionLot) → lot_leb a b ≡ false → lot_leb b a ≡ true
unfolding lot_leb
lot_leb_total a b h = ground (arith, text_leb_total a.lot_id b.lot_id)

-- What is left of each lot when the lots before it have so many free shares: its quantity less
-- what of the sale these do not cover. A lot that nothing is left of is not listed.
abbrev pub first_in_first_out : ℕ → ℕ → ℕ → List PaperPositionLot → List (String × ℕ)
first_in_first_out trading_day quantity before [] = []
first_in_first_out trading_day quantity before (l ∷ ls) =
    let left = l.quantity - min (free trading_day l) (quantity - before) in
    let rest = first_in_first_out trading_day quantity (before + free trading_day l) ls in
    if left == 0 then rest else (l.lot_id, left) ∷ rest

abbrev pub shares : PaperPositionLot → String × ℕ
shares l = (l.lot_id, l.quantity)

map-append :
    (xs ys : List PaperPositionLot) → map shares (xs ++ ys) ≡ map shares xs ++ map shares ys
map-append [] ys = refl
map-append (x ∷ xs) ys = ap (λ r. shares x ∷ r) (map-append xs ys)

module _ ⦃h : Hashing⦄ ⦃p : Platform⦄ (trading_day : ℕ) where
  left_of-shares :
      (consumed : ℕ) (l : PaperPositionLot) (rest : List (String × ℕ))
      → 0 < l.quantity
      → map shares (left_of l consumed) ++ rest
        ≡ (if l.quantity - consumed == 0 then rest else (l.lot_id, l.quantity - consumed) ∷ rest)
  unfolding left_of rest_of_lot hashed
  left_of-shares consumed l rest some = ground arith

  next_need :
      (have quantity before : ℕ)
      → quantity - before - min have (quantity - before) ≡ quantity - (before + have)
  next_need have quantity before = omega arith

  sold-shares :
      (quantity before : ℕ) (ls : List PaperPositionLot)
      → All IsLot ls
      → map shares (sold trading_day (quantity - before) ls)
        ≡ first_in_first_out trading_day quantity before ls
  unfolding sold
  sold-shares quantity before [] lots = refl
  sold-shares quantity before (l ∷ ls) (lot, lots) =
      let consumed = min (free trading_day l) (quantity - before) in
      let facts = IsLot-facts l lot in
      let rest = first_in_first_out trading_day quantity (before + free trading_day l) ls in
      map-append (left_of l consumed) (sold trading_day (quantity - before - consumed) ls)
      ∙ ap (λ n. map shares (left_of l consumed) ++ map shares (sold trading_day n ls))
          (next_need (free trading_day l) quantity before)
      ∙ ap (λ r. map shares (left_of l consumed) ++ r)
          (sold-shares quantity (before + free trading_day l) ls lots)
      ∙ left_of-shares consumed l rest facts.quantity_pos

module _ ⦃h : Hashing⦄ ⦃p : Platform⦄ where
  -- A sale that goes through takes the lots in the order of their first day of sale, their day of
  -- acquisition and their name: it takes a lot's free shares as far as the free shares of the lots
  -- before it do not cover the sale, and these are the lots and the quantities that are left.
  pub sale_is_first_in_first_out :
      (ls rest : List PaperPositionLot) (quantity trading_day : ℕ)
      → All IsLot ls
      → consume_sell_lots ls quantity trading_day ≡ ok rest
      → IsOrdered lot_leb (sorted_lots ls)
        × (map shares rest ≡ first_in_first_out trading_day quantity 0 (sorted_lots ls))
  unfolding sorted_lots
  sale_is_first_in_first_out ls rest quantity trading_day lots done =
      let (_, same) = consume_sell_lots-sold ls rest quantity trading_day lots done in
      (
        sort_by-IsOrdered lot_leb lot_leb_trans lot_leb_total ls,
        ap (map shares) (sym same)
            ∙ ap (λ n. map shares (sold trading_day n (sorted_lots ls))) (no_more quantity)
            ∙ sold-shares trading_day quantity 0 (sorted_lots ls)
                (All-sort_by lot_leb IsLot ls lots),
      )
