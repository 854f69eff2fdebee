-- ===== src/WalkForward/Totality.antt =====
-- `build_walk_forward_plan` against a description without a loop: how many folds there are, and
-- which ones.
use quant_agent.Prelude.{
  ℕ, zero, suc, ◌+◌, ◌-◌, ◌*◌, ◌/◌, ◌≤◌, ◌<◌, ◌≡◌, refl, ap, String, true, false, List, [], ◌∷◌,
  map, length, is_nil, all, ltb, lt→ltb, arith, ok, eq_iff, is_sha256, ◌=s=◌, beq_refl, texts_beq,
}
use quant_agent.Canonical.{Hashing, stable_hash}
use quant_agent.WalkForward.Contracts.{
  WalkForwardSplitConfig, WalkForwardFold, WalkForwardPlan, config_hash, is_chronological,
}
use quant_agent.WalkForward.Splitter.{
  fold_at, fold_name, validation_end, oos_end, build_folds, names_from, apart, valid_plan,
  make_plan, plan_of, required, input_payload, result_payload,
}
use quant_agent.WalkForward.Windows.{Increasing, AllBefore, slice-AllBefore}
use quant_agent.WalkForward.Folds.{IsSound, make_fold-fold_at, fold_sizes, AllBefore-ends_before}

-- A number of folds, from an offset and a number on, one step apart.
abbrev pub folds_from :
    ⦃h : Hashing⦄ → List ℕ → WalkForwardSplitConfig → ℕ → ℕ → ℕ → List WalkForwardFold
folds_from sessions c zero offset index = []
folds_from sessions c (suc count) offset index =
    fold_at sessions c offset index
    ∷ folds_from sessions c count (offset + c.step_sessions) (index + 1)

-- So many folds fit from an offset on, and no more.
abbrev pub Fit : List ℕ → WalkForwardSplitConfig → ℕ → ℕ → Type 0
Fit sessions c zero offset = length sessions < oos_end c offset
Fit sessions c (suc count) offset =
    (oos_end c offset ≤ length sessions) × Fit sessions c count (offset + c.step_sessions)

abbrev pub fold_count : List ℕ → WalkForwardSplitConfig → ℕ
fold_count sessions c = suc ((length sessions - required c) / c.step_sessions)

fold_count-Fit_at :
    (sessions : List ℕ) (c : WalkForwardSplitConfig) (count offset : ℕ)
    → oos_end c offset + count * c.step_sessions ≤ length sessions
    → length sessions < oos_end c offset + (suc count) * c.step_sessions
    → Fit sessions c (suc count) offset
fold_count-Fit_at sessions c zero offset low high = (omega arith, omega arith)
fold_count-Fit_at sessions c (suc count) offset low high = (
  omega arith,
  fold_count-Fit_at sessions c count (offset + c.step_sessions) (omega arith) (omega arith),
)

pub division : (m n : ℕ) → 0 < n → ((m / n) * n ≤ m) × (m < (suc (m / n)) * n)
division m n p = grind arith

pub fold_count-Fit :
    (sessions : List ℕ) (c : WalkForwardSplitConfig)
    → 0 < c.step_sessions
    → required c ≤ length sessions
    → Fit sessions c (fold_count sessions c) 0
fold_count-Fit sessions c step enough =
    let (low, high) = division (length sessions - required c) c.step_sessions step in
    fold_count-Fit_at sessions c ((length sessions - required c) / c.step_sessions) 0 (omega arith)
      (omega arith)

texts_beq_refl : (xs : List String) → texts_beq xs xs ≡ true
texts_beq_refl [] = refl
texts_beq_refl (x ∷ xs) = rw (beq_refl x) (texts_beq_refl xs)

-- The checks of a plan from facts about it.
valid_plan_intro :
    ⦃h : Hashing⦄ (p : WalkForwardPlan)
    → is_chronological p.sessions ≡ true
    → is_sha256 p.split_config_hash ≡ true
    → is_sha256 p.input_hash ≡ true
    → is_sha256 p.result_hash ≡ true
    → is_nil p.folds ≡ false
    → map (λ f. f.fold_id) p.folds ≡ names_from 1 p.folds
    → all (λ f. f.split_config_hash =s= p.split_config_hash) p.folds ≡ true
    → apart p.folds ≡ true
    → p.input_hash ≡ stable_hash (input_payload p.split_config_hash p.sessions)
    → p.result_hash ≡ stable_hash (result_payload p.folds p.input_hash)
    → valid_plan p ≡ true
unfolding valid_plan
valid_plan_intro p sorted config input result some_fold names hashes windows own_input own_result =
    rw
      (
        sorted,
        config,
        input,
        result,
        some_fold,
        names,
        texts_beq_refl (names_from 1 p.folds),
        hashes,
        windows,
        (eq_iff p.input_hash _).1 own_input,
      )
      ((eq_iff p.result_hash _).1 own_result)

module _ ⦃h : Hashing⦄ (sessions : List ℕ) (c : WalkForwardSplitConfig)
    (chronological : Increasing sessions) (sound : IsSound c) where
  pub build_folds_lem :
      (count fuel offset index : ℕ)
      → count < fuel
      → Fit sessions c count offset
      → build_folds fuel sessions c offset index ≡ ok (folds_from sessions c count offset index)
  unfolding build_folds
  build_folds_lem count zero offset index enough fit = absurd (omega arith)
  build_folds_lem zero (suc fuel) offset index enough fit = rw (lt→ltb _ _ fit) refl
  build_folds_lem (suc count) (suc fuel) offset index enough (fits, rest) =
      let goes_on : ltb (length sessions) (oos_end c offset) ≡ false = ground arith in
      let made = make_fold-fold_at sessions c chronological sound offset fits index in
      let later =
        build_folds_lem count fuel (offset + c.step_sessions) (index + 1) (omega arith) rest in
      rw (goes_on, made, later) refl

  -- The out-of-sample windows of rounds that are at least a step apart are in order.
  pub oos-AllBefore :
      (offset later index index' : ℕ)
      → offset + c.step_sessions ≤ later
      → AllBefore
          (fold_at sessions c offset index).out_of_sample_sessions
          (fold_at sessions c later index').out_of_sample_sessions
  unfolding fold_at
  oos-AllBefore offset later index index' le =
      slice-AllBefore (validation_end c offset) (oos_end c offset) (validation_end c later)
        (oos_end c later) sessions chronological (omega (arith, sound.step_apart))

  oos_pos :
      (offset index : ℕ)
      → oos_end c offset ≤ length sessions
      → 0 < length (fold_at sessions c offset index).out_of_sample_sessions
  oos_pos offset index fits =
      let (_, _, size) = fold_sizes sessions c chronological sound offset fits index in
      omega (arith, sound.out_of_sample_pos)

  apart-folds_from :
      (count offset index : ℕ)
      → Fit sessions c count offset
      → apart (folds_from sessions c count offset index) ≡ true
  unfolding apart
  apart-folds_from zero offset index fit = refl
  apart-folds_from (suc zero) offset index fit = refl
  apart-folds_from (suc (suc count)) offset index (fits, (next, rest)) =
      rw
        (AllBefore-ends_before _ _
          (oos-AllBefore offset (offset + c.step_sessions) index (index + 1) (omega arith))
          (oos_pos offset index fits) (oos_pos (offset + c.step_sessions) (index + 1) next))
        (apart-folds_from (suc count) (offset + c.step_sessions) (index + 1) (next, rest))

  names-folds_from :
      (count offset index : ℕ)
      → map (λ f. f.fold_id) (folds_from sessions c count offset index)
        ≡ names_from index (folds_from sessions c count offset index)
  unfolding fold_at fold_name
  names-folds_from zero offset index = refl
  names-folds_from (suc count) offset index =
      ap (λ names. fold_name index ∷ names)
        (names-folds_from count (offset + c.step_sessions) (index + 1))

  hashes-folds_from :
      (count offset index : ℕ)
      → all (λ f. f.split_config_hash =s= config_hash c) (folds_from sessions c count offset index)
        ≡ true
  unfolding fold_at
  hashes-folds_from zero offset index = refl
  hashes-folds_from (suc count) offset index =
      rw (beq_refl (config_hash c)) (hashes-folds_from count (offset + c.step_sessions) (index + 1))

  -- The plan of these folds passes the checks of `WalkForwardPlan`.
  pub make_plan-plan_of :
      (count : ℕ)
      → Fit sessions c (suc count) 0
      → is_chronological sessions ≡ true
      → make_plan (plan_of sessions c (folds_from sessions c (suc count) 0 1))
        ≡ ok (plan_of sessions c (folds_from sessions c (suc count) 0 1))
  unfolding make_plan plan_of is_sha256 config_hash
  make_plan-plan_of count fit sorted =
      let folds = folds_from sessions c (suc count) 0 1 in
      rw (sound.named, sound.stripped)
        (rw
          (valid_plan_intro (plan_of sessions c folds) sorted (h.digest _) (h.digest _) (h.digest _)
            refl (names-folds_from (suc count) 0 1) (hashes-folds_from (suc count) 0 1)
            (apart-folds_from (suc count) 0 1 fit) refl refl)
          refl)
