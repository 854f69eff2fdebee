-- ===== src/Paper/SaleFacts.antt =====
-- When a sale goes through, and what it leaves.
use mathlib.Core.Path.{subst}
use quant_agent.Prelude.{
  ℕ, ◌+◌, ◌≡◌, refl, sym, ◌∙◌, Bool, true, false, List, All, if◌then◌else◌, ok, err, leb, arith,
  total, total-sort_by, All-sort_by,
}
use quant_agent.Canonical.{Hashing}
use quant_agent.Paper.Contracts.{sale_uncovered, Platform, PaperPositionLot}
use quant_agent.Paper.Lots.{lot_leb, sorted_lots, free, consume_sell_lots}
use quant_agent.Paper.LotFacts.{IsLot}
use quant_agent.Paper.Sales.{sold, consume_lots-sold, sold-sums, sold-IsLot}

guarded-ok :
    {E A : Type 0} (test : Bool) (e : E) (value result : A)
    → (if test then ok value else err e) ≡ ok result
    → (test ≡ true) × (value ≡ result)
guarded-ok true e value result p = (refl, cc)
guarded-ok false e value result p = cc

module _ ⦃h : Hashing⦄ ⦃p : Platform⦄ where
  -- A sale from lots that passed their constructor goes through exactly if the shares that are free
  -- on that day suffice, with the lots that a description without errors names: no check of a
  -- remaining lot fails.
  pub sale_exact :
      (ls : List PaperPositionLot) (quantity trading_day : ℕ)
      → All IsLot ls
      → consume_sell_lots ls quantity trading_day ≡ (
          if leb quantity (total (free trading_day) ls)
          then ok (sold trading_day quantity (sorted_lots ls))
          else err sale_uncovered)
  unfolding consume_sell_lots sorted_lots
  sale_exact ls quantity trading_day lots =
      rw
        (
          consume_lots-sold trading_day quantity (sorted_lots ls)
              (All-sort_by lot_leb IsLot ls lots),
          total-sort_by lot_leb (free trading_day) ls,
        )
        (ground arith)

  -- The free shares suffice where a sale went through.
  pub consume_sell_lots-sold :
      (ls rest : List PaperPositionLot) (quantity trading_day : ℕ)
      → All IsLot ls
      → consume_sell_lots ls quantity trading_day ≡ ok rest
      → (leb quantity (total (free trading_day) ls) ≡ true)
        × (sold trading_day quantity (sorted_lots ls) ≡ rest)
  consume_sell_lots-sold ls rest quantity trading_day lots done =
      guarded-ok (leb quantity (total (free trading_day) ls)) sale_uncovered
        (sold trading_day quantity (sorted_lots ls)) rest
        (sym (sale_exact ls quantity trading_day lots) ∙ done)

  -- The lots behind a sale pass their constructor; they have fewer shares, and fewer free shares, by
  -- exactly the shares that were sold, and the same number of frozen shares.
  pub sale_takes_free_shares :
      (ls rest : List PaperPositionLot) (quantity trading_day : ℕ)
      → All IsLot ls
      → consume_sell_lots ls quantity trading_day ≡ ok rest
      → All IsLot rest
        × (total (λ l. l.quantity) rest + quantity ≡ total (λ l. l.quantity) ls)
        × (total (free trading_day) rest + quantity ≡ total (free trading_day) ls)
        × (total (λ l. l.externally_frozen) rest ≡ total (λ l. l.externally_frozen) ls)
  unfolding sorted_lots
  sale_takes_free_shares ls rest quantity trading_day lots done =
      let ordered = sorted_lots ls in
      let (enough, same) = consume_sell_lots-sold ls rest quantity trading_day lots done in
      let valid = All-sort_by lot_leb IsLot ls lots in
      let (all_shares, free_shares, frozen) = sold-sums trading_day quantity ordered valid in
      let sold_all = total-sort_by lot_leb (λ l. l.quantity) ls in
      let sold_free = total-sort_by lot_leb (free trading_day) ls in
      subst
        (λ r.
          All IsLot r
          × (total (λ l. l.quantity) r + quantity ≡ total (λ l. l.quantity) ls)
          × (total (free trading_day) r + quantity ≡ total (free trading_day) ls)
          × (total (λ l. l.externally_frozen) r ≡ total (λ l. l.externally_frozen) ls))
        same
        (
          sold-IsLot trading_day quantity ordered valid,
          ground arith,
          ground arith,
          frozen ∙ total-sort_by lot_leb (λ l. l.externally_frozen) ls,
        )
