-- ===== src/Regime/Liveness.antt =====
-- A long enough run of qualifying sessions of one regime makes it the effective one.
use quant_agent.Prelude.{
  ℕ, suc, ◌+◌, ◌≤◌, ◌<◌, ◌≡◌, refl, ◌⊎◌, inl, inr, true, Option, some, List, [], ◌∷◌, arith, Result,
  ok, err, ◌>>=◌, ap, leb_ℤ, if◌then◌else◌, Bool-cases, Option-cases, All, length,
}
use quant_agent.Canonical.{Hashing}
use quant_agent.Regime.Config.{
  MarketRegime, regime_beq, regime_beq-eq, regime_beq_refl, MarketRegimeResult,
  RegimeTransitionConfig, valid_config,
}
use quant_agent.Regime.Engine.{
  RegimeError, RegimeTransitionResult, is_candidate, Engine, decide, required_sessions,
}
use quant_agent.Regime.Process.{advance, process, process_all, and_rest}
use quant_agent.Regime.History.{Reaches, process_inversion}
use quant_agent.Regime.Totality.{Follows, process_all_total}

-- How far the pending count has come towards `k`.
abbrev progress : MarketRegime → Option MarketRegime → ℕ → ℕ
progress k candidate count = if is_candidate candidate k then count else 0

-- After `n` sessions of a run for `k`, where no session of it requires more than `limit`: either
-- `k` is the effective regime, or the pending count has reached `n` and is below `limit`.
abbrev HasCome : MarketRegime → ℕ → ℕ → Option MarketRegime → Option MarketRegime → ℕ → Type 0
HasCome k limit n current candidate count =
    (current ≡ some k)
    ⊎ ((n ≤ progress k candidate count) × (0 < n → progress k candidate count < limit))

same-HasCome :
    (limit n count : ℕ) (candidate : Option MarketRegime) (x k : MarketRegime)
    → k ≡ x
    → HasCome x limit n (some k) candidate count
same-HasCome limit n count candidate x k p = inl (rw p)

module _ (c : RegimeTransitionConfig) (limit n : ℕ) (e : Engine) (r : MarketRegimeResult)
    (enough : leb_ℤ c.minimum_confidence r.confidence ≡ true)
    (bound : required_sessions c r ≤ limit) where
  decide-HasCome :
      HasCome r.regime limit n e.current_regime e.pending_candidate e.pending_count
      → let d = decide c e r in
        HasCome r.regime limit (suc n) (some d.final_regime) d.pending_candidate d.pending_count
  unfolding decide
  decide-HasCome come = elim (Option-cases e.current_regime) [
    | inl p ↦ rw p (inl refl)
    | inr (x, p) ↦ elim (Bool-cases (regime_beq r.regime x)) [
      | inl same ↦ ground (arith, regime_beq-eq r.regime x)
      | inr other ↦ ground (arith, regime_beq_refl r.regime)
    ]
  ]

-- A run for `k`: every session shows `k` with enough confidence, and none requires more than
-- `limit` sessions.
abbrev pub IsRun : RegimeTransitionConfig → MarketRegime → ℕ → List MarketRegimeResult → Type 0
IsRun c k limit rs =
    All
      (λ r.
        (r.regime ≡ k)
        × (leb_ℤ c.minimum_confidence r.confidence ≡ true)
        × (required_sessions c r ≤ limit))
      rs

-- The first session of a call that returned, and those behind it.
process_all-ok :
    ⦃h : Hashing⦄ (c : RegimeTransitionConfig) (e : Engine) (r : MarketRegimeResult)
    (rs : List MarketRegimeResult) {outs : List RegimeTransitionResult} {e' : Engine}
    → process_all c e (r ∷ rs) ≡ (ok outs, e')
    → (out : RegimeTransitionResult) × (e₁ : Engine) × (rest : List RegimeTransitionResult)
      × (process c e r ≡ ok (out, e₁))
      × (process_all c e₁ rs ≡ (ok rest, e'))
unfolding process_all and_rest
process_all-ok c e r rs {outs} {e'} p = split (process c e r) refl p
  where
    behind :
        (out : RegimeTransitionResult)
        (run : Result RegimeError (List RegimeTransitionResult) × Engine)
        → Path
            (Result RegimeError (List RegimeTransitionResult) × Engine)
            (run.0 >>= λ late. ok (out ∷ late), run.1)
            (ok outs, e')
        → (rest : List RegimeTransitionResult) × (run ≡ (ok rest, e'))
    behind out (ok late, e'') q = (late, cc (ap (λ x. x.1) q))
    behind out (err raised, e'') q = cc (ap (λ x. x.0) q)

    split :
        (m : Result RegimeError (RegimeTransitionResult × Engine))
        → process c e r ≡ m
        → and_rest e m (λ e₁. process_all c e₁ rs) ≡ (ok outs, e')
        → (out : RegimeTransitionResult) × (e₁ : Engine) × (rest : List RegimeTransitionResult)
          × (process c e r ≡ ok (out, e₁))
          × (process_all c e₁ rs ≡ (ok rest, e'))
    split (err raised) first q = cc (ap (λ x. x.0) q)
    split (ok (out, e₁)) first q =
        let (rest, same) = behind out (process_all c e₁ rs) q in (out, e₁, rest, first, same)

module _ ⦃h : Hashing⦄ (c : RegimeTransitionConfig) (k : MarketRegime) (limit : ℕ) where
  process-HasCome :
      (n : ℕ) (e : Engine) (r : MarketRegimeResult) {out : RegimeTransitionResult} {e' : Engine}
      → (r.regime ≡ k)
        × (leb_ℤ c.minimum_confidence r.confidence ≡ true)
        × (required_sessions c r ≤ limit)
      → HasCome k limit n e.current_regime e.pending_candidate e.pending_count
      → process c e r ≡ ok (out, e')
      → HasCome k limit (suc n) e'.current_regime e'.pending_candidate e'.pending_count
  unfolding advance
  process-HasCome n e r (same, enough, bound) come p =
      rw ((process_inversion c e r p).2, ← same)
        (decide-HasCome c limit n e r enough bound (rw same come))

  process_all-HasCome :
      (n m : ℕ) (e : Engine) (rs : List MarketRegimeResult) {outs : List RegimeTransitionResult}
      {e' : Engine}
      → n + length rs ≡ m
      → IsRun c k limit rs
      → HasCome k limit n e.current_regime e.pending_candidate e.pending_count
      → process_all c e rs ≡ (ok outs, e')
      → HasCome k limit m e'.current_regime e'.pending_candidate e'.pending_count
  unfolding process_all
  process_all-HasCome n m e [] {e'} count run come p =
      let same : e ≡ e' = cc in let all : n ≡ m = omega arith in rw (← same, ← all) come
  process_all-HasCome n m e (r ∷ rs) {e'} count (step, run) come p =
      let (out, e₁, rest, first, behind) = process_all-ok c e r rs p in
      process_all-HasCome (suc n) m e₁ rs {outs = rest} {e' = e'} (omega arith) run
        (process-HasCome n e r step come first) behind

module _ ⦃h : Hashing⦄ {c : RegimeTransitionConfig} where
  -- A run for one regime that is at least as long as any session of it requires is accepted, and
  -- leaves that regime effective, whatever was pending before it.
  pub long_run_switches :
      {seen : List MarketRegimeResult} {e : Engine} (k : MarketRegime) (limit : ℕ)
      (rs : List MarketRegimeResult)
      → valid_config c ≡ true
      → Reaches c seen e
      → Follows e.last_session_date e.sequence_identity rs
      → IsRun c k limit rs
      → 0 < limit
      → limit ≤ length rs
      → (outs : List RegimeTransitionResult) × (e' : Engine) × (process_all c e rs ≡ (ok outs, e'))
        × (e'.current_regime ≡ some k)
  long_run_switches {e} k limit rs valid reach f run positive long =
      let (outs, e', p) = process_all_total rs valid reach f in
      (
        outs,
        e',
        p,
        settled e' (
            process_all-HasCome c k limit 0 (length rs) e rs (omega arith) run (inr (omega arith))
              p),
      )
    where
      settled :
          (e' : Engine)
          → HasCome k limit (length rs) e'.current_regime e'.pending_candidate e'.pending_count
          → e'.current_regime ≡ some k
      settled e' (inl p) = p
      settled e' (inr (come, below)) = absurd (omega arith)
