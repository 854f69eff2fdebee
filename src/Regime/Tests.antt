-- ===== src/Regime/Tests.antt =====
-- Sessions of the transition engine, and its theorems at them.
use quant_agent.Prelude.{
  ℕ, ◌*◌, ◌^◌, ◌≤◌, ◌≡◌, refl, ◌⊎◌, true, false, some, List, [], ◌∷◌, arith, ok, err, pos, whole,
  is_blank, Decimal,
}
use quant_agent.Samples.{sample_hashing, even_digest, odd_digest}
use quant_agent.Regime.Config.{
  MarketRegime, uptrend, downtrend, regime_beq, supporting, RegimeEvidence, MarketRegimeResult,
  RegimeTransitionConfig, valid_config, valid_market_result,
}
use quant_agent.Regime.Engine.{
  input_mismatch, RegimeTransitionResult, transition_confirmed, Engine, fresh, decide,
  required_sessions,
}
use quant_agent.Regime.Process.{output_of, advance, process, process_all, is_stale, is_foreign}
use quant_agent.Regime.History.{Reaches, start, next, event_at}
use quant_agent.Regime.Debounce.{streak, change_needs_streak}
use quant_agent.Regime.Totality.{process_exact, process_one}
use quant_agent.Regime.Audit.{IsAudit, Reaches-IsAudit}
use quant_agent.Regime.Sequences.{Ends, process_all_exact}
use quant_agent.Regime.Liveness.{long_run_switches}

-- `RegimeTransitionConfig()`, but for a shorter confirmation: 2 sessions.
abbrev policy : RegimeTransitionConfig
policy = record {
  version = "market-regime-transition-v1";
  confirmation_sessions = 2;
  bottom_recovery_confirmation_sessions = 3;
  minimum_confidence = pos (6 * 10 ^ 11);
  severe_downtrend_enabled = true;
  severe_downtrend_score_max = whole 25;
  severe_downtrend_minimum_confidence = pos (8 * 10 ^ 11);
  severe_downtrend_confirmation_sessions = 1;
}

abbrev breadth : RegimeEvidence
breadth = record {
  feature = "breadth";
  value = whole 1;
  criterion = "above";
  rule_weight = whole 1;
  contribution = whole 1;
  side = supporting;
  rationale = "more advances than declines";
}

abbrev session : ℕ → MarketRegime → Decimal → MarketRegimeResult
session date regime confidence = record {
  as_of = date * 86400;
  session_date = date;
  data_version = "d1";
  regime = regime;
  score = whole 40;
  confidence = confidence;
  evidence = breadth ∷ [];
  model_version = "m1";
  config_hash = even_digest;
  input_identity = record {
    trend_feature_version = "t1";
    trend_config_hash = even_digest;
    breadth_feature_version = "b1";
    breadth_config_hash = even_digest;
  };
  result_hash = odd_digest;
}

abbrev first_day : MarketRegimeResult
first_day = session 1 uptrend (pos (7 * 10 ^ 11))

abbrev second_day : MarketRegimeResult
second_day = session 2 downtrend (pos (7 * 10 ^ 11))

abbrev third_day : MarketRegimeResult
third_day = session 3 downtrend (pos (7 * 10 ^ 11))

policy-valid : valid_config policy ≡ true
unfolding valid_config is_blank
policy-valid = refl

abbrev after : Engine → MarketRegimeResult → Engine
after e r = advance e r (decide policy e r) (event_at policy e r)

abbrev output : Engine → MarketRegimeResult → RegimeTransitionResult
output e r = output_of policy r (decide policy e r) (event_at policy e r)

first_step : process policy fresh first_day ≡ ok (output fresh first_day, after fresh first_day)
unfolding valid_market_result fresh
first_step = process_one first_day policy-valid refl (start refl) refl refl

after_first : Reaches policy (first_day ∷ []) (after fresh first_day)
after_first = next first_day (start refl) first_step

abbrev engine₁ : Engine
engine₁ = after fresh first_day

second_step :
    process policy engine₁ second_day ≡ ok (output engine₁ second_day, after engine₁ second_day)
unfolding valid_market_result fresh advance
second_step = process_one second_day policy-valid refl after_first refl refl

abbrev engine₂ : Engine
engine₂ = after engine₁ second_day

after_second : Reaches policy (second_day ∷ first_day ∷ []) engine₂
after_second = next second_day after_first second_step

third_step :
    process policy engine₂ third_day ≡ ok (output engine₂ third_day, after engine₂ third_day)
unfolding valid_market_result fresh advance
third_step = process_one third_day policy-valid refl after_second refl refl

change_needs_streak_example :
    ((output engine₂ third_day).final_regime ≡ downtrend)
    × ((output engine₂ third_day).event.action ≡ transition_confirmed)
    × (required_sessions policy third_day
        ≤ streak policy downtrend (third_day ∷ second_day ∷ first_day ∷ []))
unfolding output_of decide fresh advance regime_beq required_sessions
change_needs_streak_example =
    change_needs_streak third_day {previous = uptrend} after_second third_step refl (λ e. cc)

process_exact_example :
    ((is_stale engine₁.last_session_date first_day ≡ false)
      × (is_foreign engine₁.sequence_identity first_day ≡ false)
      × (process policy engine₁ first_day ≡ ok (output engine₁ first_day, after engine₁ first_day)))
    ⊎ (((is_stale engine₁.last_session_date first_day ≡ true)
          ⊎ (is_foreign engine₁.sequence_identity first_day ≡ true))
        × (process policy engine₁ first_day ≡ err input_mismatch))
unfolding valid_market_result
process_exact_example = process_exact first_day policy-valid refl after_first

Reaches-IsAudit_example : IsAudit (second_day ∷ first_day ∷ []) engine₂
Reaches-IsAudit_example = Reaches-IsAudit after_second

process_all_exact_example :
    Ends
      (second_day ∷ first_day ∷ third_day ∷ [])
      (second_day ∷ [])
      (process_all policy engine₁ (second_day ∷ first_day ∷ third_day ∷ [])).0
    × Reaches policy
        (second_day ∷ first_day ∷ [])
        (process_all policy engine₁ (second_day ∷ first_day ∷ third_day ∷ [])).1
unfolding valid_market_result fresh advance
process_all_exact_example =
    process_all_exact (second_day ∷ first_day ∷ third_day ∷ []) policy-valid
      (refl, (refl, (refl, tt))) after_first

long_run_switches_example :
    (outs : List RegimeTransitionResult) × (e' : Engine) × (process_all policy engine₁
        (second_day ∷ third_day ∷ [])
      ≡ (ok outs, e'))
    × (e'.current_regime ≡ some downtrend)
unfolding valid_market_result fresh advance required_sessions regime_beq
long_run_switches_example =
    long_run_switches downtrend 2 (second_day ∷ third_day ∷ []) policy-valid after_first
      (refl, refl, refl, (refl, refl, refl, tt))
      ((refl, refl, omega arith), ((refl, refl, omega arith), tt)) (omega arith) (omega arith)
