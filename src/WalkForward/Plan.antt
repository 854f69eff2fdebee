-- ===== src/WalkForward/Plan.antt =====
-- What `build_walk_forward_plan` gives for a configuration that its constructor accepted.
use mathlib.Core.Path.{subst}
use native.Mathlib.Nat.{le-mul_of_pos_right}
use quant_agent.Prelude.{
  ℕ, suc, ◌-◌, ◌/◌, ◌≤◌, ◌<◌, ◌≡◌, refl, sym, ◌∙◌, Bool, true, false, not, inl, inr, Bool-cases,
  List, [], ◌∷◌, length, any, ltb, arith, Result, ok, err, passed-ok, checked-ok, is_blank, strip,
  if◌then◌else◌, strip_idem, is_blank-strip,
}
use quant_agent.Canonical.{Hashing}
use quant_agent.WalkForward.Contracts.{
  WalkForwardError, not_chronological, too_few_sessions, value_error, WalkForwardSplitConfig,
  WalkForwardPlan, make_config, is_chronological,
}
use quant_agent.WalkForward.Splitter.{plan_of, required, build_walk_forward_plan}
use quant_agent.WalkForward.Windows.{Increasing, is_chronological-Increasing}
use quant_agent.WalkForward.Folds.{IsSound}
use quant_agent.WalkForward.Totality.{
  folds_from, fold_count, fold_count-Fit, division, build_folds_lem, make_plan-plan_of,
}

-- Every size is positive.
abbrev sizes : WalkForwardSplitConfig → List ℕ
sizes c = c.train_sessions ∷ c.validation_sessions ∷ c.out_of_sample_sessions ∷ c.step_sessions ∷ []

stripped-IsSound :
    (c : WalkForwardSplitConfig)
    → is_blank c.version ≡ false
    → any (λ n. ltb n 1) (sizes c) ≡ false
    → ltb c.step_sessions c.out_of_sample_sessions ≡ false
    → IsSound (record c { version = strip c.version })
stripped-IsSound c named positive step = record {
  train_pos = ground arith;
  validation_pos = ground arith;
  out_of_sample_pos = ground arith;
  step_apart = ground arith;
  named = is_blank-strip c.version ∙ named;
  stripped = strip_idem c.version;
}

make_config-IsSound : (given c : WalkForwardSplitConfig) → make_config given ≡ ok c → IsSound c
unfolding make_config
make_config-IsSound given c made =
    let (named, checks) = passed-ok (is_blank given.version) value_error _ c made in
    let (positive, rest) = passed-ok (any (λ n. ltb n 1) (sizes given)) value_error _ c checks in
    let (step, same) =
      checked-ok (ltb given.step_sessions given.out_of_sample_sessions) value_error
        (record given { version = strip given.version }) c rest in
    subst IsSound same (stripped-IsSound given named positive step)

-- What the plan is, without a loop.
abbrev pub described_plan :
    ⦃h : Hashing⦄ → List ℕ → WalkForwardSplitConfig → Result WalkForwardError WalkForwardPlan
described_plan sessions c =
    if not (is_chronological sessions)
    then err not_chronological
    else if ltb (length sessions) (required c)
    then err too_few_sessions
    else ok (plan_of sessions c (folds_from sessions c (fold_count sessions c) 0 1))

-- As many rounds as there are sessions are enough for the loop.
enough_fuel :
    (sessions : List ℕ) (c : WalkForwardSplitConfig)
    → IsSound c
    → required c ≤ length sessions
    → fold_count sessions c < suc (length sessions)
enough_fuel sessions c sound enough =
    let step : 0 < c.step_sessions = omega (arith, sound.out_of_sample_pos, sound.step_apart) in
    let (low, high) = division (length sessions - required c) c.step_sessions step in
    let more = le-mul_of_pos_right ((length sessions - required c) / c.step_sessions) step in
    omega (arith, sound.train_pos)

-- For a configuration that its constructor accepted, `build_walk_forward_plan` raises exactly when
-- the sessions are not strictly chronological or fewer than one fold needs, and returns the plan of
-- the folds at 0, 1, 2, … steps otherwise, as many as fit: the loop ends, and no fold and no plan
-- fails the checks of its constructor.
pub plan_exact :
    ⦃h : Hashing⦄ (sessions : List ℕ) (given c : WalkForwardSplitConfig)
    → make_config given ≡ ok c
    → build_walk_forward_plan sessions c ≡ described_plan sessions c
unfolding build_walk_forward_plan
plan_exact sessions given c made = elim (Bool-cases (is_chronological sessions)) [
  | inr unsorted ↦ rw unsorted refl
  | inl sorted ↦ elim (Bool-cases (ltb (length sessions) (required c))) [
    | inl short ↦ rw (sorted, short) refl
    | inr enough ↦
        let sound = make_config-IsSound given c made in
        let chronological = is_chronological-Increasing sessions sorted in
        let fit =
          fold_count-Fit sessions c (omega (arith, sound.out_of_sample_pos, sound.step_apart))
            (ground arith) in
        rw (sorted, enough)
          (rw
            (build_folds_lem sessions c chronological sound (fold_count sessions c)
              (suc (length sessions)) 0 1 (enough_fuel sessions c sound (ground arith)) fit)
            (make_plan-plan_of sessions c chronological sound
              ((length sessions - required c) / c.step_sessions) fit sorted))
  ]
]

-- A plan that was returned, and the facts that its folds rest on.
pub record IsBuilt ⦃h : Hashing⦄ (sessions : List ℕ) (c : WalkForwardSplitConfig)
    (p : WalkForwardPlan) : Type 0 where
  pub sound : IsSound c
  pub chronological : Increasing sessions
  pub enough : required c ≤ length sessions
  pub plan : plan_of sessions c (folds_from sessions c (fold_count sessions c) 0 1) ≡ p

guarded-ok :
    {E A : Type 0} (sorted short : Bool) (e e' : E) (value result : A)
    → (if not sorted then err e else if short then err e' else ok value) ≡ ok result
    → (sorted ≡ true) × (short ≡ false) × (value ≡ result)
guarded-ok true true e e' value result p = cc
guarded-ok true false e e' value result p = (refl, refl, cc)
guarded-ok false short e e' value result p = cc

pub build_walk_forward_plan-IsBuilt :
    ⦃h : Hashing⦄ (sessions : List ℕ) (given c : WalkForwardSplitConfig) (p : WalkForwardPlan)
    → make_config given ≡ ok c
    → build_walk_forward_plan sessions c ≡ ok p
    → IsBuilt sessions c p
build_walk_forward_plan-IsBuilt sessions given c p made built =
    let (sorted, enough, same) =
      guarded-ok (is_chronological sessions) (ltb (length sessions) (required c)) not_chronological
        too_few_sessions (plan_of sessions c (folds_from sessions c (fold_count sessions c) 0 1)) p
        (sym (plan_exact sessions given c made) ∙ built) in
    record {
      sound = make_config-IsSound given c made;
      chronological = is_chronological-Increasing sessions sorted;
      enough = ground arith;
      plan = same;
    }
