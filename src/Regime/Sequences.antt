-- ===== src/Regime/Sequences.antt =====
-- How far `process_all` of packages/quant_agent/regime/transitions.py comes in a sequence of sessions.
use quant_agent.Prelude.{
  ℕ, ◌<◌, ◌≡◌, refl, ap, ◌⊎◌, inl, inr, Bool, true, not, ◌&&◌, Bool-cases, Option, none, some, List,
  [], ◌∷◌, All, length, arith, ltb, if◌then◌else◌, Result, ok, err, ◌>>=◌, map,
}
use quant_agent.Canonical.{Hashing}
use quant_agent.Regime.Config.{
  MarketRegimeResult, RegimeTransitionConfig, valid_config, valid_market_result,
}
use quant_agent.Regime.Engine.{
  RegimeError, input_mismatch, SequenceIdentity, RegimeTransitionResult, Engine, decide,
}
use quant_agent.Regime.Process.{
  is_stale, is_foreign, keep_identity, output_of, advance, process_all, and_rest,
}
use quant_agent.Regime.History.{Reaches, next, event_at}
use quant_agent.Regime.Totality.{process_exact}

abbrev is_later : Option ℕ → MarketRegimeResult → Bool
is_later none r = true
is_later (some date) r = ltb date r.session_date

-- The sessions up to the first that is not later than the one before it, or is not of the identity
-- of the first one.
abbrev pub in_sequence :
    Option ℕ → Option SequenceIdentity → List MarketRegimeResult → List MarketRegimeResult
in_sequence date identity [] = []
in_sequence date identity (r ∷ rs) =
    let rest = in_sequence (some r.session_date) (some (keep_identity identity r)) rs in
    if is_later date r && not (is_foreign identity r) then r ∷ rest else []

-- Sessions that were seen after others, the latest first.
abbrev pub seen_after : List MarketRegimeResult → List MarketRegimeResult → List MarketRegimeResult
seen_after seen [] = seen
seen_after seen (r ∷ rs) = seen_after (r ∷ seen) rs

is_later-is_stale :
    (date : Option ℕ) (r : MarketRegimeResult) → is_later date r ≡ not (is_stale date r)
is_later-is_stale none r = refl
is_later-is_stale (some date) r = ground arith

-- How a call ends that was to process `rs`, of which the sessions `taken` are in sequence.
abbrev pub Ends :
    List MarketRegimeResult
    → List MarketRegimeResult
    → Result RegimeError (List RegimeTransitionResult)
    → Type 0
Ends rs taken result =
    ((taken ≡ rs)
      × ((outs : List RegimeTransitionResult) × (result ≡ ok outs)
          × (map (λ (o : RegimeTransitionResult). o.raw_result) outs ≡ rs)))
    ⊎ ((length taken < length rs) × (result ≡ err input_mismatch))

Ends-next :
    (r : MarketRegimeResult) (rs taken : List MarketRegimeResult) (out : RegimeTransitionResult)
    (result : Result RegimeError (List RegimeTransitionResult))
    → out.raw_result ≡ r
    → Ends rs taken result
    → Ends (r ∷ rs) (r ∷ taken) (result >>= λ outs. ok (out ∷ outs))
Ends-next r rs taken out result own (inl (all, (outs, returned, sources))) =
    inl (ap (λ t. r ∷ t) all, (out ∷ outs, rw returned refl, rw (own, sources) refl))
Ends-next r rs taken out result own (inr (fewer, raised)) = inr (omega arith, rw raised refl)

module _ ⦃h : Hashing⦄ {c : RegimeTransitionConfig} where
  -- A sequence of the classifier's results is processed up to the first whose date is not later
  -- than the last one or whose identity differs. If there is none, the call returns a result for
  -- each of them, in their order; otherwise it raises the input mismatch. Either way the engine
  -- that is left has seen exactly the sessions in front of that one.
  pub process_all_exact :
      (rs : List MarketRegimeResult) {seen : List MarketRegimeResult} {e : Engine}
      → valid_config c ≡ true
      → All (λ r. valid_market_result r ≡ true) rs
      → Reaches c seen e
      → Ends rs (in_sequence e.last_session_date e.sequence_identity rs) (process_all c e rs).0
        × Reaches c
            (seen_after seen (in_sequence e.last_session_date e.sequence_identity rs))
            (process_all c e rs).1
  unfolding process_all and_rest advance output_of
  process_all_exact [] valid inputs reach = (inl (refl, ([], refl, refl)), reach)
  process_all_exact (r ∷ rs) {e = e} valid (input, inputs) reach =
      let later = is_later-is_stale e.last_session_date r in
      elim (process_exact r valid input reach) [
        | inl (date, same, one) ↦
            let (ends, reached) = process_all_exact rs valid inputs (next r reach one) in
            rw (later, date, same, one)
              (
                Ends-next r rs _ (output_of c r (decide c e r) (event_at c e r)) _ refl ends,
                reached,
              )
        | inr (inl stale, one) ↦ rw (later, stale, one) (inr (omega arith, refl), reach)
        | inr (inr foreign, one) ↦ elim (Bool-cases (is_later e.last_session_date r)) [
          | inl after ↦ rw (after, foreign, one) (inr (omega arith, refl), reach)
          | inr before ↦ rw (before, one) (inr (omega arith, refl), reach)
        ]
      ]
