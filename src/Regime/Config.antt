-- ===== src/Regime/Config.antt =====
-- The values that the engine of packages/quant_agent/regime/transitions.py reads: the market
-- regimes, the classifier's result and its evidence (regime/contracts.py), and the transition
-- policy `RegimeTransitionConfig` with its checks.
use quant_agent.Prelude.{
  ◌≡◌, arith, ℕ, String, Bool, true, false, not, ◌&&◌, List, leb, ◌==◌, is_nil, Decimal, whole,
  leb_ℤ, is_blank, text_length,
}
use quant_agent.Canonical.{
  int, flag, decimal, text, obj, end, field, Hashing, stable_hash, stable_hash-length,
}

pub data MarketRegime : Type 0 where
  uptrend range_strong divergent downtrend bottom_recovery : MarketRegime

-- `a is b` on two members of the enumeration.
unfoldable pub regime_beq : MarketRegime → MarketRegime → Bool
regime_beq uptrend uptrend = true
regime_beq range_strong range_strong = true
regime_beq divergent divergent = true
regime_beq downtrend downtrend = true
regime_beq bottom_recovery bottom_recovery = true
regime_beq _ _ = false

pub regime_beq-eq : (a b : MarketRegime) → regime_beq a b ≡ true → a ≡ b
unfolding regime_beq
regime_beq-eq a b h = ground arith

pub regime_beq_refl : (a : MarketRegime) → regime_beq a a ≡ true
unfolding regime_beq
regime_beq_refl a = ground arith

abbrev pub regime_value : MarketRegime → String
regime_value uptrend = "UPTREND"
regime_value range_strong = "RANGE_STRONG"
regime_value divergent = "DIVERGENT"
regime_value downtrend = "DOWNTREND"
regime_value bottom_recovery = "BOTTOM_RECOVERY"

pub data EvidenceSide : Type 0 where
  supporting opposing : EvidenceSide

pub record RegimeEvidence : Type 0 where
  pub feature : String
  pub value : Decimal
  pub criterion : String
  pub rule_weight : Decimal
  pub contribution : Decimal
  pub side : EvidenceSide
  pub rationale : String

pub record RegimeInputIdentity : Type 0 where
  pub trend_feature_version : String
  pub trend_config_hash : String
  pub breadth_feature_version : String
  pub breadth_config_hash : String

-- The fields of `MarketRegimeResult` that the transition engine reads.
pub record MarketRegimeResult : Type 0 where
  pub as_of : ℕ
  pub session_date : ℕ
  pub data_version : String
  pub regime : MarketRegime
  pub score : Decimal
  pub confidence : Decimal
  pub evidence : List RegimeEvidence
  pub model_version : String
  pub config_hash : String
  pub input_identity : RegimeInputIdentity
  pub result_hash : String

abbrev pub within : Decimal → Decimal → Decimal → Bool
within lo hi x = leb_ℤ lo x && leb_ℤ x hi

-- What `MarketRegimeResult.__post_init__` has checked of those fields.
unfoldable pub valid_market_result : MarketRegimeResult → Bool
valid_market_result r =
    within (whole 0) (whole 100) r.score
    && within (whole 0) (whole 1) r.confidence
    && not (is_nil r.evidence)
    && text_length r.result_hash == 64

pub record RegimeTransitionConfig : Type 0 where
  pub version : String
  pub confirmation_sessions : ℕ
  pub bottom_recovery_confirmation_sessions : ℕ
  pub minimum_confidence : Decimal
  pub severe_downtrend_enabled : Bool
  pub severe_downtrend_score_max : Decimal
  pub severe_downtrend_minimum_confidence : Decimal
  pub severe_downtrend_confirmation_sessions : ℕ

-- `RegimeTransitionConfig.__post_init__`: whether construction succeeds.
unfoldable pub valid_config : RegimeTransitionConfig → Bool
valid_config c =
    not (is_blank c.version)
    && (leb 1 c.confirmation_sessions
        && leb 1 c.bottom_recovery_confirmation_sessions
        && leb 1 c.severe_downtrend_confirmation_sessions)
    && leb c.severe_downtrend_confirmation_sessions c.confirmation_sessions
    && within (whole 0) (whole 1) c.minimum_confidence
    && within (whole 0) (whole 1) c.severe_downtrend_minimum_confidence
    && leb_ℤ c.minimum_confidence c.severe_downtrend_minimum_confidence
    && within (whole 0) (whole 100) c.severe_downtrend_score_max

-- `RegimeTransitionConfig.config_hash`
unfoldable pub transition_config_hash : ⦃h : Hashing⦄ → RegimeTransitionConfig → String
transition_config_hash c = stable_hash (
    obj (
      field "version" (text c.version) (
        field "confirmation_sessions" (int c.confirmation_sessions) (
          field "bottom_recovery_confirmation_sessions"
            (int c.bottom_recovery_confirmation_sessions)
            (field "minimum_confidence" (decimal c.minimum_confidence) (
              field "severe_downtrend_enabled" (flag c.severe_downtrend_enabled) (
                field "severe_downtrend_score_max" (decimal c.severe_downtrend_score_max) (
                  field "severe_downtrend_minimum_confidence"
                    (decimal c.severe_downtrend_minimum_confidence)
                    (field "severe_downtrend_confirmation_sessions"
                      (int c.severe_downtrend_confirmation_sessions) end)))))))))

pub config_hash-length :
    ⦃h : Hashing⦄ (c : RegimeTransitionConfig)
    → (text_length (transition_config_hash c) == 64) ≡ true
unfolding transition_config_hash
config_hash-length c = stable_hash-length _
