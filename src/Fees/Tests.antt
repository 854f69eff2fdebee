-- ===== src/Fees/Tests.antt =====
-- A book of three fee rules, and the theorems at it.
use quant_agent.Prelude.{
  ℕ, ◌<◌, ◌≡◌, ◌⊎◌, ◌↔◌, refl, String, true, false, All, none, some, List, [], ◌∷◌, pos, ok, err,
  is_blank, strip,
}
use quant_agent.Paper.Contracts.{stock, etf, buy, sell}
use quant_agent.Fees.{
  FeeRule, fee_rule_not_found, make_fee_rule, same_identity, same_version, check_rules, make_book,
  is_candidate, version_matches, candidates, latest, latest_of, select,
}
use quant_agent.Fees.Selection.{In, IsUnfit, selects_newest, select_missing}

abbrev rule : String → ℕ → FeeRule
rule version day = record {
  instrument_type = stock;
  side = sell;
  effective_from = day;
  version = version;
  commission_rate = pos 300000000;
  minimum_commission = pos 5000000000000;
  stamp_duty_rate = pos 500000000;
  transfer_fee_rate = pos 10000000;
  other_fee_rate = pos 0;
  rounding_increment = pos 10000000000;
}

abbrev rules : List FeeRule
rules = rule "b" 20 ∷ rule "a" 10 ∷ rule "c" 30 ∷ []

rule_made : make_fee_rule (rule " b " 20) ≡ ok (rule "b" 20)
unfolding make_fee_rule is_blank strip
rule_made = refl

book_made : make_book rules ≡ ok rules
unfolding make_book check_rules same_identity same_version
book_made = refl

selected : select rules stock sell 25 none ≡ ok (rule "b" 20)
unfolding select candidates is_candidate version_matches latest latest_of
selected = refl

pinned : select rules stock sell 25 (some "a") ≡ ok (rule "a" 10)
unfolding select candidates is_candidate version_matches latest latest_of
pinned = refl

selects_newest_example :
    In (rule "b" 20) rules
    × (is_candidate stock sell 25 none (rule "b" 20) ≡ true)
    × All
        (λ s.
          (is_candidate stock sell 25 none s ≡ false)
          ⊎ ((s ≡ rule "b" 20) ⊎ (s.effective_from < 20)))
        rules
selects_newest_example =
    selects_newest rules rules stock sell 25 none (rule "b" 20) book_made selected

select_missing_example :
    (select rules etf buy 25 none ≡ err fee_rule_not_found) ↔ All (IsUnfit etf buy 25 none) rules
select_missing_example = select_missing rules etf buy 25 none
