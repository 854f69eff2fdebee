-- ===== src/Regime/Engine.antt =====
-- `RegimeTransitionEngine` of packages/quant_agent/regime/transitions.py: its state, the decision of
-- one session, the audit event, and `process`. The text of a reason is kept as its template and the
-- values put into it.
use quant_agent.Prelude.{
  ℕ, ◌+◌, String, Bool, false, ◌&&◌, Option, none, some, List, [], leb, if◌then◌else◌, Decimal,
  leb_ℤ, ltb_ℤ,
}
use quant_agent.Regime.Config.{
  MarketRegime, downtrend, bottom_recovery, regime_beq, RegimeEvidence, MarketRegimeResult,
  RegimeTransitionConfig,
}

pub data RegimeError : Type 0 where
  input_mismatch value_error : RegimeError

pub data TransitionAction : Type 0 where
  initialized stable candidate_started candidate_advanced : TransitionAction
  candidate_rejected candidate_cancelled transition_confirmed : TransitionAction

abbrev pub action_value : TransitionAction → String
action_value initialized = "INITIALIZED"
action_value stable = "STABLE"
action_value candidate_started = "CANDIDATE_STARTED"
action_value candidate_advanced = "CANDIDATE_ADVANCED"
action_value candidate_rejected = "CANDIDATE_REJECTED"
action_value candidate_cancelled = "CANDIDATE_CANCELLED"
action_value transition_confirmed = "TRANSITION_CONFIRMED"

pub data Reason : Type 0 where
  first_observation agrees returned severe_gate reached_count : Reason
  below_minimum : Decimal → Reason
  accumulating : ℕ → ℕ → Reason

pub record TransitionEvent : Type 0 where
  pub session_date : ℕ
  pub as_of : ℕ
  pub raw_regime : MarketRegime
  pub previous_regime : Option MarketRegime
  pub final_regime : MarketRegime
  pub action : TransitionAction
  pub candidate_regime : Option MarketRegime
  pub candidate_count : ℕ
  pub required_confirmation_sessions : Option ℕ
  pub raw_score : Decimal
  pub raw_confidence : Decimal
  pub reason : Reason
  pub supporting_evidence : List RegimeEvidence
  pub source_result_hash : String
  pub transition_config_version : String
  pub transition_config_hash : String
  pub previous_event_hash : Option String
  pub event_hash : String

pub record RegimeTransitionResult : Type 0 where
  pub raw_result : MarketRegimeResult
  pub raw_regime : MarketRegime
  pub final_regime : MarketRegime
  pub pending_candidate : Option MarketRegime
  pub pending_count : ℕ
  pub required_confirmation_sessions : Option ℕ
  pub event : TransitionEvent
  pub transition_config_version : String
  pub transition_config_hash : String
  pub result_hash : String

pub record SequenceIdentity : Type 0 where
  pub data_version : String
  pub model_version : String
  pub classifier_config_hash : String
  pub trend_feature_version : String
  pub trend_config_hash : String
  pub breadth_feature_version : String
  pub breadth_config_hash : String

-- `_SequenceIdentity.from_result`
abbrev pub from_result : MarketRegimeResult → SequenceIdentity
from_result r = record {
  data_version = r.data_version;
  model_version = r.model_version;
  classifier_config_hash = r.config_hash;
  trend_feature_version = r.input_identity.trend_feature_version;
  trend_config_hash = r.input_identity.trend_config_hash;
  breadth_feature_version = r.input_identity.breadth_feature_version;
  breadth_config_hash = r.input_identity.breadth_config_hash;
}

-- The fields that `RegimeTransitionEngine.__init__` sets; the policy is an argument of each method.
pub record Engine : Type 0 where
  pub sequence_identity : Option SequenceIdentity
  pub last_session_date : Option ℕ
  pub current_regime : Option MarketRegime
  pub pending_candidate : Option MarketRegime
  pub pending_count : ℕ
  pub pending_required_sessions : Option ℕ
  pub events : List TransitionEvent

unfoldable pub fresh : Engine
fresh = record {
  sequence_identity = none;
  last_session_date = none;
  current_regime = none;
  pending_candidate = none;
  pending_count = 0;
  pending_required_sessions = none;
  events = [];
}

unfoldable pub is_severe_downtrend : RegimeTransitionConfig → MarketRegimeResult → Bool
is_severe_downtrend c r =
    c.severe_downtrend_enabled
    && regime_beq r.regime downtrend
    && leb_ℤ r.score c.severe_downtrend_score_max
    && leb_ℤ c.severe_downtrend_minimum_confidence r.confidence

unfoldable pub required_sessions : RegimeTransitionConfig → MarketRegimeResult → ℕ
unfolding is_severe_downtrend
required_sessions c r =
    if is_severe_downtrend c r
    then c.severe_downtrend_confirmation_sessions
    else if regime_beq r.regime bottom_recovery
    then c.bottom_recovery_confirmation_sessions
    else c.confirmation_sessions

-- The local variables that the branches of `process` set.
pub record Decision : Type 0 where
  pub final_regime : MarketRegime
  pub pending_candidate : Option MarketRegime
  pub pending_count : ℕ
  pub pending_required : Option ℕ
  pub action : TransitionAction
  pub candidate_for_event : Option MarketRegime
  pub count_for_event : ℕ
  pub required_for_event : Option ℕ
  pub reason : Reason

-- The branch without a previous regime.
abbrev initialize : MarketRegimeResult → Decision
initialize r = record {
  final_regime = r.regime;
  pending_candidate = none;
  pending_count = 0;
  pending_required = none;
  action = initialized;
  candidate_for_event = none;
  count_for_event = 0;
  required_for_event = none;
  reason = first_observation;
}

-- The branch `result.regime is previous_regime`.
abbrev agree : Engine → MarketRegime → Option MarketRegime → Decision
agree e previous none = record {
  final_regime = previous;
  pending_candidate = none;
  pending_count = 0;
  pending_required = none;
  action = stable;
  candidate_for_event = none;
  count_for_event = 0;
  required_for_event = none;
  reason = agrees;
}
agree e previous (some candidate) = record {
  final_regime = previous;
  pending_candidate = none;
  pending_count = 0;
  pending_required = none;
  action = candidate_cancelled;
  candidate_for_event = some candidate;
  count_for_event = e.pending_count;
  required_for_event = e.pending_required_sessions;
  reason = returned;
}

-- The branch of a confidence below the minimum.
abbrev reject : RegimeTransitionConfig → MarketRegimeResult → MarketRegime → ℕ → Decision
reject c r previous required = record {
  final_regime = previous;
  pending_candidate = none;
  pending_count = 0;
  pending_required = none;
  action = candidate_rejected;
  candidate_for_event = some r.regime;
  count_for_event = 0;
  required_for_event = some required;
  reason = below_minimum c.minimum_confidence;
}

abbrev confirm : RegimeTransitionConfig → MarketRegimeResult → ℕ → ℕ → Decision
confirm c r count required = record {
  final_regime = r.regime;
  pending_candidate = none;
  pending_count = 0;
  pending_required = none;
  action = transition_confirmed;
  candidate_for_event = some r.regime;
  count_for_event = count;
  required_for_event = some required;
  reason = if is_severe_downtrend c r then severe_gate else reached_count;
}

abbrev accumulate : MarketRegimeResult → MarketRegime → Bool → ℕ → ℕ → Decision
accumulate r previous same count required = record {
  final_regime = previous;
  pending_candidate = some r.regime;
  pending_count = count;
  pending_required = some required;
  action = if same then candidate_advanced else candidate_started;
  candidate_for_event = some r.regime;
  count_for_event = count;
  required_for_event = some required;
  reason = accumulating count required;
}

-- `self._pending_candidate is result.regime`
abbrev pub is_candidate : Option MarketRegime → MarketRegime → Bool
is_candidate none r = false
is_candidate (some c) r = regime_beq c r

-- The branch of a regime that differs from the effective one.
challenge : RegimeTransitionConfig → Engine → MarketRegime → MarketRegimeResult → Decision
challenge c e previous r =
    let required = required_sessions c r in
    let same = is_candidate e.pending_candidate r.regime in
    let count = if same then e.pending_count + 1 else 1 in
    if ltb_ℤ r.confidence c.minimum_confidence
    then reject c r previous required
    else if leb required count
    then confirm c r count required
    else accumulate r previous same count required

-- The conditional of `process`.
decide_from : RegimeTransitionConfig → Engine → Option MarketRegime → MarketRegimeResult → Decision
unfolding challenge
decide_from c e none r = initialize r
decide_from c e (some previous) r =
    if regime_beq r.regime previous
    then agree e previous e.pending_candidate
    else challenge c e previous r

unfoldable pub decide : RegimeTransitionConfig → Engine → MarketRegimeResult → Decision
unfolding decide_from
decide c e r = decide_from c e e.current_regime r
