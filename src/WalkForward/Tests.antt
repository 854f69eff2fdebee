-- ===== src/WalkForward/Tests.antt =====
-- A plan of walk-forward folds over nine sessions, and the theorems at it.
use quant_agent.Prelude.{
  ℕ, ◌+◌, ◌*◌, ◌≤◌, ◌<◌, ◌≡◌, refl, true, List, [], ◌∷◌, All, ok, err, is_blank,
}
use quant_agent.Samples.{sample_hashing}
use quant_agent.WalkForward.Contracts.{
  WalkForwardSplitConfig, make_config, is_chronological, too_few_sessions, not_chronological,
}
use quant_agent.WalkForward.Splitter.{required, plan_of, build_walk_forward_plan}
use quant_agent.WalkForward.Totality.{folds_from}
use quant_agent.WalkForward.Plan.{described_plan, plan_exact}
use quant_agent.WalkForward.LookAhead.{
  LooksBack, HasTraining, OutOfSampleApart, folds_never_look_ahead, fold_count_bounds,
}

abbrev given : WalkForwardSplitConfig
given = record {
  version = " v1 ";
  train_sessions = 3;
  validation_sessions = 2;
  out_of_sample_sessions = 1;
  step_sessions = 2;
  expanding_train = true;
}

abbrev config : WalkForwardSplitConfig
config = record given { version = "v1" }

config_made : make_config given ≡ ok config
unfolding make_config is_blank
config_made = refl

abbrev sessions : List ℕ
sessions = 3 ∷ 4 ∷ 5 ∷ 6 ∷ 9 ∷ 10 ∷ 11 ∷ 12 ∷ 13 ∷ []

too_short : build_walk_forward_plan (3 ∷ 4 ∷ []) config ≡ err too_few_sessions
unfolding build_walk_forward_plan is_chronological
too_short = refl

unsorted : build_walk_forward_plan (4 ∷ 3 ∷ []) config ≡ err not_chronological
unfolding build_walk_forward_plan is_chronological
unsorted = refl

built :
    build_walk_forward_plan sessions config
    ≡ ok (plan_of sessions config (folds_from sessions config 2 0 1))
unfolding is_chronological
built = plan_exact sessions given config config_made

plan_exact_example : build_walk_forward_plan sessions config ≡ described_plan sessions config
plan_exact_example = plan_exact sessions given config config_made

folds_never_look_ahead_example :
    All (LooksBack config) (folds_from sessions config 2 0 1)
    × HasTraining 3 2 (folds_from sessions config 2 0 1)
    × OutOfSampleApart (folds_from sessions config 2 0 1)
unfolding plan_of
folds_never_look_ahead_example =
    folds_never_look_ahead sessions given config
      (plan_of sessions config (folds_from sessions config 2 0 1)) config_made built

fold_count_bounds_example : (required config + 2 * 2 ≤ 9 + 2) × (9 < required config + 2 * 2)
unfolding plan_of
fold_count_bounds_example =
    fold_count_bounds sessions given config
      (plan_of sessions config (folds_from sessions config 2 0 1)) config_made built
