-- ===== src/Regime/Process.antt =====
-- `RegimeTransitionEngine.process` and `process_all` of
-- packages/quant_agent/regime/transitions.py: validation of the next session, the audit event and
-- the result with the checks of their constructors, and the update of the engine.
use quant_agent.Prelude.{
  ℕ, String, Bool, true, false, not, ◌&&◌, Option, none, some, List, [], ◌∷◌, ◌++◌, leb, ltb, ◌==◌,
  is_nil, last?, Result, ok, err, ◌>>=◌, ◌>>◌, raise_if, whole, is_blank, text_length, ◌=s=◌,
}
use quant_agent.Canonical.{
  Json, null, int, decimal, instant, day, text, arr, obj, Items, nil, cons, end, field, opt_text,
  opt_int, Hashing, stable_hash,
}
use quant_agent.Regime.Config.{
  MarketRegime, regime_beq, regime_value, EvidenceSide, supporting, opposing, RegimeEvidence,
  MarketRegimeResult, within, RegimeTransitionConfig, transition_config_hash,
}
use quant_agent.Regime.Engine.{
  RegimeError, input_mismatch, value_error, action_value, Reason, first_observation, agrees,
  returned, severe_gate, reached_count, below_minimum, accumulating, TransitionEvent,
  RegimeTransitionResult, SequenceIdentity, from_result, Engine, Decision, decide,
}

abbrev same_identity : SequenceIdentity → SequenceIdentity → Bool
same_identity a b =
    (a.data_version =s= b.data_version)
    && (a.model_version =s= b.model_version)
    && (a.classifier_config_hash =s= b.classifier_config_hash)
    && (a.trend_feature_version =s= b.trend_feature_version)
    && (a.trend_config_hash =s= b.trend_config_hash)
    && (a.breadth_feature_version =s= b.breadth_feature_version)
    && (a.breadth_config_hash =s= b.breadth_config_hash)

-- `self._last_session_date is not None and result.session_date <= self._last_session_date`
abbrev pub is_stale : Option ℕ → MarketRegimeResult → Bool
is_stale none r = false
is_stale (some last) r = leb r.session_date last

-- `self._sequence_identity is not None and identity != self._sequence_identity`
abbrev pub is_foreign : Option SequenceIdentity → MarketRegimeResult → Bool
is_foreign none r = false
is_foreign (some identity) r = not (same_identity (from_result r) identity)

unfoldable pub validate_next : Engine → MarketRegimeResult → Result RegimeError (Unit {0})
validate_next e r = do
  raise_if (is_stale e.last_session_date r) input_mismatch
  raise_if (is_foreign e.sequence_identity r) input_mismatch

abbrev side_value : EvidenceSide → String
side_value supporting = "SUPPORTING"
side_value opposing = "OPPOSING"

evidence_items : List RegimeEvidence → Items
evidence_items [] = nil
evidence_items (item ∷ rest) =
    cons
      (obj (
        field "contribution" (decimal item.contribution) (
          field "criterion" (text item.criterion) (
            field "feature" (text item.feature) (
              field "rationale" (text item.rationale) (
                field "rule_weight" (decimal item.rule_weight) (
                  field "side" (text (side_value item.side))
                    (field "value" (decimal item.value) end))))))))
      (evidence_items rest)

reason_json : Reason → Json
reason_json first_observation =
    text "initialized effective state from the first chronological observation"
reason_json agrees = text "raw state agrees with the effective state"
reason_json returned = text "raw state returned to the effective state before confirmation"
reason_json severe_gate = text "severe downtrend met the configured accelerated confirmation gate"
reason_json reached_count = text "candidate reached its consecutive-session confirmation count"
reason_json (below_minimum minimum) = arr (
    cons (text "candidate rule consistency is below the configured minimum ")
      (cons (decimal minimum) nil))
reason_json (accumulating count required) = arr (
    cons (text "candidate is accumulating consecutive qualifying sessions ")
      (cons (int count) (cons (int required) nil)))

abbrev opt_regime : Option MarketRegime → Json
opt_regime none = null
opt_regime (some r) = text (regime_value r)

-- The payload of `_event`.
unfoldable pub event_payload :
    ⦃h : Hashing⦄
    → RegimeTransitionConfig
    → MarketRegimeResult
    → Option MarketRegime
    → Decision
    → Option String
    → Json
unfolding evidence_items reason_json
event_payload c r previous_regime d previous_event_hash = obj (
    field "action" (text (action_value d.action)) (
      field "as_of" (instant r.as_of) (
        field "candidate_count" (int d.count_for_event) (
          field "candidate_regime" (opt_regime d.candidate_for_event) (
            field "final_regime" (text (regime_value d.final_regime)) (
              field "previous_event_hash" (opt_text previous_event_hash) (
                field "previous_regime" (opt_regime previous_regime) (
                  field "raw_confidence" (decimal r.confidence) (
                    field "raw_regime" (text (regime_value r.regime)) (
                      field "raw_score" (decimal r.score) (
                        field "reason" (reason_json d.reason) (
                          field "required_confirmation_sessions" (opt_int d.required_for_event) (
                            field "session_date" (day r.session_date) (
                              field "source_result_hash" (text r.result_hash) (
                                field "supporting_evidence" (arr (evidence_items r.evidence)) (
                                  field "transition_config_hash" (text (transition_config_hash c)) (
                                    field "transition_config_version" (text c.version)
                                      end)))))))))))))))))

-- `_event`
unfoldable pub event_of :
    ⦃h : Hashing⦄
    → RegimeTransitionConfig
    → MarketRegimeResult
    → Option MarketRegime
    → Decision
    → Option String
    → TransitionEvent
event_of c r previous_regime d previous_event_hash = record {
  session_date = r.session_date;
  as_of = r.as_of;
  raw_regime = r.regime;
  previous_regime = previous_regime;
  final_regime = d.final_regime;
  action = d.action;
  candidate_regime = d.candidate_for_event;
  candidate_count = d.count_for_event;
  required_confirmation_sessions = d.required_for_event;
  raw_score = r.score;
  raw_confidence = r.confidence;
  reason = d.reason;
  supporting_evidence = r.evidence;
  source_result_hash = r.result_hash;
  transition_config_version = c.version;
  transition_config_hash = transition_config_hash c;
  previous_event_hash = previous_event_hash;
  event_hash = stable_hash (event_payload c r previous_regime d previous_event_hash);
}

-- `required_confirmation_sessions`, where set, is positive and has a candidate.
abbrev pub valid_required : Option ℕ → Option MarketRegime → Bool
valid_required none candidate = true
valid_required (some n) none = false
valid_required (some n) (some candidate) = leb 1 n

abbrev pub valid_previous : Option String → Bool
valid_previous none = true
valid_previous (some s) = text_length s == 64

-- `TransitionEvent.__post_init__`. (A count is a natural number, and no template of a reason is
-- blank.)
unfoldable pub valid_event : TransitionEvent → Bool
valid_event e =
    valid_required e.required_confirmation_sessions e.candidate_regime
    && not (is_blank e.transition_config_version)
    && not (is_nil e.supporting_evidence)
    && (text_length e.source_result_hash == 64
        && text_length e.transition_config_hash == 64
        && text_length e.event_hash == 64)
    && valid_previous e.previous_event_hash
    && within (whole 0) (whole 100) e.raw_score
    && within (whole 0) (whole 1) e.raw_confidence

-- The pending candidate of a result, with its count and the count that it needs.
abbrev pub valid_pending : Option MarketRegime → ℕ → Option ℕ → Bool
valid_pending none n none = n == 0
valid_pending none n (some required) = false
valid_pending (some c) n none = false
valid_pending (some c) n (some required) = leb 1 n && ltb n required

-- `RegimeTransitionResult.__post_init__`
unfoldable pub valid_result : RegimeTransitionResult → Bool
valid_result x =
    regime_beq x.raw_regime x.raw_result.regime
    && regime_beq x.event.raw_regime x.raw_regime
    && regime_beq x.event.final_regime x.final_regime
    && valid_pending x.pending_candidate x.pending_count x.required_confirmation_sessions
    && not (is_blank x.transition_config_version)
    && (text_length x.transition_config_hash == 64 && text_length x.result_hash == 64)

-- `self._events[-1].event_hash if self._events else None`
abbrev pub last_hash : Option TransitionEvent → Option String
last_hash none = none
last_hash (some event) = some event.event_hash

unfoldable pub previous_hash : Engine → Option String
previous_hash e = last_hash (last? e.events)

unfoldable pub result_payload :
    ⦃h : Hashing⦄ → RegimeTransitionConfig → MarketRegimeResult → Decision → TransitionEvent → Json
result_payload c r d event = obj (
    field "event_hash" (text event.event_hash) (
      field "final_regime" (text (regime_value d.final_regime)) (
        field "pending_candidate" (opt_regime d.pending_candidate) (
          field "pending_count" (int d.pending_count) (
            field "raw_result_hash" (text r.result_hash) (
              field "required_confirmation_sessions" (opt_int d.pending_required)
                (field "transition_config_hash" (text (transition_config_hash c)) end)))))))

unfoldable pub output_of :
    ⦃h : Hashing⦄
    → RegimeTransitionConfig
    → MarketRegimeResult
    → Decision
    → TransitionEvent
    → RegimeTransitionResult
output_of c r d event = record {
  raw_result = r;
  raw_regime = r.regime;
  final_regime = d.final_regime;
  pending_candidate = d.pending_candidate;
  pending_count = d.pending_count;
  required_confirmation_sessions = d.pending_required;
  event = event;
  transition_config_version = c.version;
  transition_config_hash = transition_config_hash c;
  result_hash = stable_hash (result_payload c r d event);
}

abbrev pub keep_identity : Option SequenceIdentity → MarketRegimeResult → SequenceIdentity
keep_identity none r = from_result r
keep_identity (some identity) r = identity

-- The assignments at the end of `process`.
unfoldable pub advance : Engine → MarketRegimeResult → Decision → TransitionEvent → Engine
advance e r d event = record {
  sequence_identity = some (keep_identity e.sequence_identity r);
  last_session_date = some r.session_date;
  current_regime = some d.final_regime;
  pending_candidate = d.pending_candidate;
  pending_count = d.pending_count;
  pending_required_sessions = d.pending_required;
  events = e.events ++ event ∷ [];
}

unfoldable pub process :
    ⦃h : Hashing⦄
    → RegimeTransitionConfig
    → Engine
    → MarketRegimeResult
    → Result RegimeError (RegimeTransitionResult × Engine)
process c e r = do
  validate_next e r
  let d = decide c e r
  let event = event_of c r e.current_regime d (previous_hash e)
  raise_if (not (valid_event event)) value_error
  let output = output_of c r d event
  raise_if (not (valid_result output)) value_error
  ok (output, advance e r d event)

-- A session of `process_all`: what it raises ends the call, with the engine as it is then.
unfoldable pub and_rest :
    Engine
    → Result RegimeError (RegimeTransitionResult × Engine)
    → (Engine → Result RegimeError (List RegimeTransitionResult) × Engine)
    → Result RegimeError (List RegimeTransitionResult) × Engine
and_rest e (err raised) rest = (err raised, e)
and_rest e (ok (output, e')) rest =
    let (outputs, e'') = rest e' in (outputs >>= λ outs. ok (output ∷ outs), e'')

-- `process_all`: the tuple of the results or what a session raised, and the engine that is left,
-- which has processed the sessions in front of that one.
unfoldable pub process_all :
    ⦃h : Hashing⦄
    → RegimeTransitionConfig
    → Engine
    → List MarketRegimeResult
    → Result RegimeError (List RegimeTransitionResult) × Engine
unfolding and_rest
process_all c e [] = (ok [], e)
process_all c e (r ∷ rs) = and_rest e (process c e r) (λ e'. process_all c e' rs)
