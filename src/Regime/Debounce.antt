-- ===== src/Regime/Debounce.antt =====
-- A change of the effective regime needs its run of qualifying sessions, and a long enough run
-- forces it.
use quant_agent.Prelude.{
  ℕ, suc, ◌≤◌, ◌≡◌, ◌≢◌, Bool, true, ◌&&◌, Option, none, some, List, [], ◌∷◌, arith, ok, leb_ℤ,
  if◌then◌else◌,
}
use quant_agent.Canonical.{Hashing}
use quant_agent.Regime.Config.{
  MarketRegime, regime_beq, regime_beq-eq, regime_beq_refl, MarketRegimeResult,
  RegimeTransitionConfig,
}
use quant_agent.Regime.Engine.{
  RegimeTransitionResult, is_candidate, transition_confirmed, Engine, fresh, decide,
  required_sessions,
}
use quant_agent.Regime.Process.{event_of, output_of, advance, process}
use quant_agent.Regime.History.{Reaches, start, next, event_at, process_inversion}

-- A session that counts towards `regime`: it shows that regime, with enough confidence.
abbrev pub qualifies : RegimeTransitionConfig → MarketRegime → MarketRegimeResult → Bool
qualifies c regime r = regime_beq r.regime regime && leb_ℤ c.minimum_confidence r.confidence

-- How many of the latest sessions, without a gap, count towards `regime`.
abbrev pub streak : RegimeTransitionConfig → MarketRegime → List MarketRegimeResult → ℕ
streak c regime [] = 0
streak c regime (r ∷ seen) = if qualifies c regime r then suc (streak c regime seen) else 0

-- The pending count is backed by the sessions seen.
abbrev IsBacked :
    RegimeTransitionConfig → List MarketRegimeResult → Option MarketRegime → ℕ → Type 0
IsBacked c seen none n = Unit
IsBacked c seen (some k) n = n ≤ streak c k seen

candidate-IsBacked :
    (c : RegimeTransitionConfig) (seen : List MarketRegimeResult) (o : Option MarketRegime) (n : ℕ)
    (k : MarketRegime)
    → IsBacked c seen o n
    → is_candidate o k ≡ true
    → n ≤ streak c k seen
candidate-IsBacked c seen none n k h same = cc
candidate-IsBacked c seen (some j) n k h same = rw (← regime_beq-eq j k same) h

module _ (c : RegimeTransitionConfig) (e : Engine) (r : MarketRegimeResult)
    (seen : List MarketRegimeResult)
    (backed : IsBacked c seen e.pending_candidate e.pending_count) where
  decide-IsBacked :
      IsBacked c (r ∷ seen) (decide c e r).pending_candidate (decide c e r).pending_count
  unfolding decide
  decide-IsBacked = ground (
    arith,
    regime_beq_refl r.regime,
    candidate-IsBacked c seen e.pending_candidate e.pending_count r.regime backed,
  )

  decide_change :
      {previous : MarketRegime}
      → e.current_regime ≡ some previous
      → (decide c e r).final_regime ≢ previous
      → ((decide c e r).final_regime ≡ r.regime)
        × ((decide c e r).action ≡ transition_confirmed)
        × (required_sessions c r ≤ streak c r.regime (r ∷ seen))
  unfolding decide
  decide_change q changed = ground (
    arith,
    regime_beq_refl r.regime,
    candidate-IsBacked c seen e.pending_candidate e.pending_count r.regime backed,
  )

  change_confirmed :
      ⦃h : Hashing⦄ {previous : MarketRegime} {out : RegimeTransitionResult}
      → e.current_regime ≡ some previous
      → out ≡ output_of c r (decide c e r) (event_at c e r)
      → out.final_regime ≢ previous
      → (out.final_regime ≡ r.regime)
        × (out.event.action ≡ transition_confirmed)
        × (required_sessions c r ≤ streak c r.regime (r ∷ seen))
  unfolding output_of event_of
  change_confirmed q p changed = rw p (decide_change q (λ same. changed (rw p same)))

module _ ⦃h : Hashing⦄ {c : RegimeTransitionConfig} where
  Reaches-IsBacked :
      {seen : List MarketRegimeResult} {e : Engine}
      → Reaches c seen e
      → IsBacked c seen e.pending_candidate e.pending_count
  unfolding fresh advance
  Reaches-IsBacked (start p) = rw p tt
  Reaches-IsBacked (next {seen} {e} r reach p) =
      rw (process_inversion c e r p).2 (decide-IsBacked c e r seen (Reaches-IsBacked reach))

  -- The effective regime changes only to the regime of the present session, and only after as many
  -- sessions in a row as the policy requires of it, the present one included, have shown that
  -- regime with at least the minimum confidence.
  pub change_needs_streak :
      {seen : List MarketRegimeResult} {e e' : Engine} (r : MarketRegimeResult)
      {out : RegimeTransitionResult} {previous : MarketRegime}
      → Reaches c seen e
      → process c e r ≡ ok (out, e')
      → e.current_regime ≡ some previous
      → out.final_regime ≢ previous
      → (out.final_regime ≡ r.regime)
        × (out.event.action ≡ transition_confirmed)
        × (required_sessions c r ≤ streak c r.regime (r ∷ seen))
  change_needs_streak {seen} {e} r reach p q changed =
      change_confirmed c e r seen (Reaches-IsBacked reach) q (process_inversion c e r p).1 changed
