-- ===== src/Fees.antt =====
-- The fee rules of packages/quant_agent/backtest/rules.py: `FeeRule` without the arithmetic of
-- `assess`, and `FeeRuleBook`.
pub mod Selection
pub mod Tests
use quant_agent.Prelude.{
  ℕ, String, Bool, true, false, not, ◌&&◌, ◌||◌, Option, none, some, List, [], ◌∷◌, any, Result, ok,
  err, ◌>>=◌, ◌>>◌, raise_if, ltb, leb, ◌==◌, is_blank, strip, ◌=s=◌, if◌then◌else◌, Decimal, pos,
  ltb_ℤ,
}
use quant_agent.Paper.Contracts.{TradableInstrumentType, type_beq, Side, side_beq}

-- A `ValueError` of a constructor, `FeeRuleNotFoundError`.
pub data FeeError : Type 0 where
  value_error fee_rule_not_found : FeeError

pub record FeeRule : Type 0 where
  pub instrument_type : TradableInstrumentType
  pub side : Side
  pub effective_from : ℕ
  pub version : String
  pub commission_rate : Decimal
  pub minimum_commission : Decimal
  pub stamp_duty_rate : Decimal
  pub transfer_fee_rate : Decimal
  pub other_fee_rate : Decimal
  pub rounding_increment : Decimal

-- `Decimal(1)`
abbrev pub one : Decimal
one = pos 1000000000000

-- `FeeRule(...)`
unfoldable pub make_fee_rule : FeeRule → Result FeeError FeeRule
make_fee_rule r = do
  raise_if (is_blank r.version) value_error
  raise_if
      (any (λ rate. ltb_ℤ rate (pos 0) || ltb_ℤ one rate)
        (r.commission_rate ∷ r.stamp_duty_rate ∷ r.transfer_fee_rate ∷ r.other_fee_rate ∷ []))
      value_error
  raise_if (ltb_ℤ r.minimum_commission (pos 0)) value_error
  raise_if (not (ltb_ℤ (pos 0) r.rounding_increment)) value_error
  ok (record r { version = strip r.version })

-- Rules with the same key in `identities`, and in `versions`.
unfoldable pub same_identity : FeeRule → FeeRule → Bool
same_identity a b =
    type_beq a.instrument_type b.instrument_type
    && side_beq a.side b.side
    && a.effective_from == b.effective_from

unfoldable pub same_version : FeeRule → FeeRule → Bool
same_version a b =
    type_beq a.instrument_type b.instrument_type
    && side_beq a.side b.side
    && (a.version =s= b.version)

-- The loop of `FeeRuleBook.__init__`, with the rules whose keys are in the two sets.
unfoldable pub check_rules : List FeeRule → List FeeRule → Result FeeError (Unit {0})
unfolding same_identity same_version
check_rules [] seen = ok tt
check_rules (rule ∷ rules) seen = do
  raise_if (any (same_identity rule) seen) value_error
  raise_if (any (same_version rule) seen) value_error
  check_rules rules (rule ∷ seen)

-- `FeeRuleBook(rules)`
unfoldable pub make_book : List FeeRule → Result FeeError (List FeeRule)
unfolding check_rules
make_book rules = do check_rules rules []; ok rules

unfoldable pub version_matches : Option String → FeeRule → Bool
version_matches none rule = true
version_matches (some version) rule = rule.version =s= version

-- The condition of `candidates`.
unfoldable pub is_candidate : TradableInstrumentType → Side → ℕ → Option String → FeeRule → Bool
unfolding version_matches
is_candidate instrument_type side day version rule =
    type_beq rule.instrument_type instrument_type
    && side_beq rule.side side
    && leb rule.effective_from day
    && version_matches version rule

unfoldable pub candidates : (FeeRule → Bool) → List FeeRule → List FeeRule
candidates p [] = []
candidates p (rule ∷ rules) = let rest = candidates p rules in if p rule then rule ∷ rest else rest

-- `max` by `effective_from`, which is the first of several largest ones.
unfoldable pub latest : FeeRule → List FeeRule → FeeRule
latest best [] = best
latest best (rule ∷ rules) =
    latest (if ltb best.effective_from rule.effective_from then rule else best) rules

unfoldable pub latest_of : List FeeRule → Result FeeError FeeRule
unfolding latest
latest_of [] = err fee_rule_not_found
latest_of (rule ∷ rules) = ok (latest rule rules)

-- `FeeRuleBook.select`
unfoldable pub select :
    List FeeRule → TradableInstrumentType → Side → ℕ → Option String → Result FeeError FeeRule
unfolding is_candidate candidates latest_of
select rules instrument_type side day version =
    latest_of (candidates (is_candidate instrument_type side day version) rules)
