-- ===== src/Regime/History.antt =====
-- The engines that `process` reaches from a new one, with the sessions that they have seen, the
-- latest first; and the inversion of one successful call.
use quant_agent.Prelude.{◌≡◌, List, [], ◌∷◌, arith, ok}
use quant_agent.Canonical.{Hashing}
use quant_agent.Regime.Config.{MarketRegimeResult, RegimeTransitionConfig}
use quant_agent.Regime.Engine.{RegimeTransitionResult, TransitionEvent, Engine, fresh, decide}
use quant_agent.Regime.Process.{validate_next, event_of, output_of, previous_hash, advance, process}

module _ ⦃h : Hashing⦄ (c : RegimeTransitionConfig) where
  pub data Reaches : List MarketRegimeResult → Engine → Type 0 where
    start : {e : Engine} → e ≡ fresh → Reaches [] e
    next :
        {seen : List MarketRegimeResult} {e e' : Engine} (r : MarketRegimeResult)
        {out : RegimeTransitionResult}
        → Reaches seen e
        → process c e r ≡ ok (out, e')
        → Reaches (r ∷ seen) e'

  abbrev pub event_at : Engine → MarketRegimeResult → TransitionEvent
  event_at e r = event_of c r e.current_regime (decide c e r) (previous_hash e)

  -- What a call that returned has done.
  pub process_inversion :
      (e : Engine) (r : MarketRegimeResult) {out : RegimeTransitionResult} {e' : Engine}
      → process c e r ≡ ok (out, e')
      → (validate_next e r ≡ ok tt)
        × (out ≡ output_of c r (decide c e r) (event_at e r))
        × (e' ≡ advance e r (decide c e r) (event_at e r))
  unfolding process
  process_inversion e r p = ground arith
