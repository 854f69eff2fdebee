-- ===== src/Regime/Totality.antt =====
-- The constructors that `process` calls never raise: it refuses a session exactly for its date or
-- for its identity.
use quant_agent.Prelude.{
  ℕ, ◌≡◌, refl, ◌⊎◌, true, false, Option, some, List, [], ◌∷◌, arith, ok, err, last?-append, leb,
  is_blank,
}
use quant_agent.Canonical.{Hashing, stable_hash-length}
use quant_agent.Regime.Config.{
  regime_beq_refl, MarketRegimeResult, RegimeTransitionConfig, valid_config, valid_market_result,
  config_hash-length,
}
use quant_agent.Regime.Engine.{
  SequenceIdentity, input_mismatch, RegimeTransitionResult, Engine, fresh, decide,
  required_sessions,
}
use quant_agent.Regime.Process.{
  validate_next, event_of, output_of, previous_hash, advance, process, valid_event, valid_result,
  valid_pending, valid_previous, valid_required, is_stale, is_foreign, keep_identity, process_all,
  event_payload, result_payload,
}
use quant_agent.Regime.History.{Reaches, start, next, event_at, process_inversion}

required_sessions_pos :
    (c : RegimeTransitionConfig) (r : MarketRegimeResult)
    → valid_config c ≡ true
    → leb 1 (required_sessions c r) ≡ true
unfolding valid_config required_sessions
required_sessions_pos c r v = ground arith

-- What the engine keeps between two sessions: a pending candidate has a positive count below the
-- count that it needs, and the last event has a digest.
pub record IsConsistent (e : Engine) : Type 0 where
  pub pending : valid_pending e.pending_candidate e.pending_count e.pending_required_sessions ≡ true
  pub previous : valid_previous (previous_hash e) ≡ true

decide-pending :
    (c : RegimeTransitionConfig) (e : Engine) (r : MarketRegimeResult)
    → (valid_pending
          (decide c e r).pending_candidate
          (decide c e r).pending_count
          (decide c e r).pending_required
        ≡ true)
unfolding decide
decide-pending c e r = ground arith

decide-required :
    (c : RegimeTransitionConfig) (e : Engine) (r : MarketRegimeResult)
    → valid_config c ≡ true
    → IsConsistent e
    → (valid_required (decide c e r).required_for_event (decide c e r).candidate_for_event ≡ true)
unfolding decide
decide-required c e r v k = ground (arith, required_sessions_pos c r v)

version_not_blank :
    (c : RegimeTransitionConfig) → valid_config c ≡ true → is_blank c.version ≡ false
unfolding valid_config
version_not_blank c v = ground arith

module _ ⦃h : Hashing⦄ (c : RegimeTransitionConfig) (e : Engine) (r : MarketRegimeResult)
    (valid : valid_config c ≡ true) (input : valid_market_result r ≡ true)
    (k : IsConsistent e) where
  event-valid : valid_event (event_at c e r) ≡ true
  unfolding valid_event event_of valid_market_result
  event-valid = ground (
    arith,
    decide-required c e r valid k,
    k.previous,
    version_not_blank c valid,
    config_hash-length c,
    stable_hash-length (event_payload c r e.current_regime (decide c e r) (previous_hash e)),
  )

  output-valid : valid_result (output_of c r (decide c e r) (event_at c e r)) ≡ true
  unfolding valid_result output_of event_of
  output-valid = ground (
    arith,
    regime_beq_refl r.regime,
    regime_beq_refl (decide c e r).final_regime,
    decide-pending c e r,
    version_not_blank c valid,
    config_hash-length c,
    stable_hash-length (result_payload c r (decide c e r) (event_at c e r)),
  )

  -- A session whose date and identity are accepted is processed.
  process_accepts :
      validate_next e r ≡ ok tt
      → process c e r
        ≡ ok (
          output_of c r (decide c e r) (event_at c e r),
          advance e r (decide c e r) (event_at c e r),
        )
  unfolding process
  process_accepts accepted = rw (accepted, event-valid, output-valid)

  process_refuses : validate_next e r ≡ err input_mismatch → process c e r ≡ err input_mismatch
  unfolding process
  process_refuses refused = rw refused

advance-IsConsistent :
    ⦃h : Hashing⦄ (c : RegimeTransitionConfig) (e : Engine) (r : MarketRegimeResult)
    → IsConsistent (advance e r (decide c e r) (event_at c e r))
unfolding advance previous_hash
advance-IsConsistent c e r = record {
  pending = decide-pending c e r;
  previous = rw last?-append (unfold event_of in stable_hash-length _);
}

module _ ⦃h : Hashing⦄ {c : RegimeTransitionConfig} where
  pub Reaches-IsConsistent :
      {seen : List MarketRegimeResult} {e : Engine} → Reaches c seen e → IsConsistent e
  unfolding fresh previous_hash
  Reaches-IsConsistent (start p) = rw p (record { pending = refl; previous = refl })
  Reaches-IsConsistent (next {e} r reach p) =
      rw (process_inversion c e r p).2 (advance-IsConsistent c e r)

  -- The classifier's result is processed unless its date is not later than the last one or its
  -- identity differs; then, and only then, the call raises, and it raises the input mismatch. No
  -- check of the event or of the result that the call builds ever fails.
  pub process_exact :
      {seen : List MarketRegimeResult} {e : Engine} (r : MarketRegimeResult)
      → valid_config c ≡ true
      → valid_market_result r ≡ true
      → Reaches c seen e
      → ((is_stale e.last_session_date r ≡ false)
          × (is_foreign e.sequence_identity r ≡ false)
          × (process c e r
              ≡ ok (
                output_of c r (decide c e r) (event_at c e r),
                advance e r (decide c e r) (event_at c e r),
              )))
        ⊎ (((is_stale e.last_session_date r ≡ true) ⊎ (is_foreign e.sequence_identity r ≡ true))
            × (process c e r ≡ err input_mismatch))
  unfolding validate_next
  process_exact {e} r valid input reach = ground (
    arith,
    process_accepts c e r valid input (Reaches-IsConsistent reach),
    process_refuses c e r valid input (Reaches-IsConsistent reach),
  )

-- Sessions that an engine accepts one after the other: well formed, each later than the one before
-- it, and all of one identity.
abbrev pub Follows : Option ℕ → Option SequenceIdentity → List MarketRegimeResult → Type 0
Follows d identity [] = Unit
Follows d identity (r ∷ rs) =
    (valid_market_result r ≡ true)
    × (is_stale d r ≡ false)
    × (is_foreign identity r ≡ false)
    × Follows (some r.session_date) (some (keep_identity identity r)) rs

module _ ⦃h : Hashing⦄ {c : RegimeTransitionConfig} where
  -- The engine that one accepted session leaves.
  pub process_one :
      {seen : List MarketRegimeResult} {e : Engine} (r : MarketRegimeResult)
      → valid_config c ≡ true
      → valid_market_result r ≡ true
      → Reaches c seen e
      → is_stale e.last_session_date r ≡ false
      → is_foreign e.sequence_identity r ≡ false
      → process c e r
        ≡ ok (
          output_of c r (decide c e r) (event_at c e r),
          advance e r (decide c e r) (event_at c e r),
        )
  process_one {e} r valid input reach fresh_date same =
      ground (arith, process_exact r valid input reach)

  pub process_all_total :
      (rs : List MarketRegimeResult) {seen : List MarketRegimeResult} {e : Engine}
      → valid_config c ≡ true
      → Reaches c seen e
      → Follows e.last_session_date e.sequence_identity rs
      → (outs : List RegimeTransitionResult) × (e' : Engine) × (process_all c e rs ≡ (ok outs, e'))
  unfolding process_all advance
  process_all_total [] {e} valid reach f = ([], e, refl)
  process_all_total (r ∷ rs) {e} valid reach (input, date, same, rest) =
      let one = process_one r valid input reach date same in
      let (outs, e', all) = process_all_total rs valid (next r reach one) rest in
      (output_of c r (decide c e r) (event_at c e r) ∷ outs, e', rw (one, all))
