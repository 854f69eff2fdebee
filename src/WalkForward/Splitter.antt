-- ===== src/WalkForward/Splitter.antt =====
-- `build_walk_forward_plan` (packages/quant_agent/backtest/validation/splitter.py) and the checks of
-- the plan it builds (contracts.py). The `while` loop takes fuel: one round for each session is
-- enough.
use quant_agent.Prelude.{
  ℕ, zero, suc, ◌+◌, ◌/◌, ◌%◌, String, Bool, true, not, ◌&&◌, List, [], ◌∷◌, map, if◌then◌else◌,
  Result, ok, err, ◌>>=◌, ◌>>◌, raise_if, ltb, all, is_nil, length, take, drop, is_sha256, is_blank,
  strip, ◌=s=◌, texts_beq,
}
use Prim.Native.String.{◌++◌ as append_text}
use quant_agent.Canonical.{Hashing, stable_hash, Json, text, texts, obj, end, field}
use quant_agent.WalkForward.Contracts.{
  WalkForwardError, not_chronological, too_few_sessions, value_error, out_of_fuel,
  WalkForwardSplitConfig, WalkForwardFold, WalkForwardPlan, config_hash, is_chronological, days,
  fold_payload, make_fold, ends_before,
}

-- `values[start:stop]` for `start` and `stop` from zero on.
abbrev pub slice : ℕ → ℕ → List ℕ → List ℕ
slice start stop values = drop start (take stop values)

-- A digit as a text.
unfoldable pub digit : ℕ → String
digit zero = "0"
digit (suc zero) = "1"
digit (suc (suc zero)) = "2"
digit (suc (suc (suc zero))) = "3"
digit (suc (suc (suc (suc zero)))) = "4"
digit (suc (suc (suc (suc (suc zero))))) = "5"
digit (suc (suc (suc (suc (suc (suc zero)))))) = "6"
digit (suc (suc (suc (suc (suc (suc (suc zero))))))) = "7"
digit (suc (suc (suc (suc (suc (suc (suc (suc zero)))))))) = "8"
digit _ = "9"

-- The decimal digits of a number, in front of a text.
unfoldable pub digits : ℕ → ℕ → String → String
unfolding digit
digits zero n after = after
digits (suc fuel) n after =
    let more = digits fuel (n / 10) (append_text (digit (n % 10)) after) in
    if ltb n 10 then append_text (digit n) after else more

-- `f"{n:03d}"`
unfoldable pub three_digits : ℕ → String
unfolding digits
three_digits n =
    let shown = digits (suc n) n "" in
    if ltb n 10 then append_text "00" shown else if ltb n 100 then append_text "0" shown else shown

-- `f"WF-{index:03d}"`
unfoldable pub fold_name : ℕ → String
unfolding three_digits
fold_name index = append_text "WF-" (three_digits index)

-- The bounds of the windows at an offset.
abbrev pub train_start : WalkForwardSplitConfig → ℕ → ℕ
train_start c offset = if c.expanding_train then 0 else offset

abbrev pub train_end : WalkForwardSplitConfig → ℕ → ℕ
train_end c offset = c.train_sessions + offset

abbrev pub validation_end : WalkForwardSplitConfig → ℕ → ℕ
validation_end c offset = train_end c offset + c.validation_sessions

abbrev pub oos_end : WalkForwardSplitConfig → ℕ → ℕ
oos_end c offset = validation_end c offset + c.out_of_sample_sessions

-- The fold that a round of the loop makes, before its checks.
unfoldable pub fold_at : ⦃h : Hashing⦄ → List ℕ → WalkForwardSplitConfig → ℕ → ℕ → WalkForwardFold
unfolding fold_name fold_payload
fold_at sessions c offset index =
    let train = slice (train_start c offset) (train_end c offset) sessions in
    let validation = slice (train_end c offset) (validation_end c offset) sessions in
    let out_of_sample = slice (validation_end c offset) (oos_end c offset) sessions in
    record {
      fold_id = fold_name index;
      train_sessions = train;
      validation_sessions = validation;
      out_of_sample_sessions = out_of_sample;
      split_config_hash = config_hash c;
      fold_hash =
          stable_hash
            (fold_payload (fold_name index) train validation out_of_sample (config_hash c));
    }

-- The loop, from an offset and the number of the next fold.
unfoldable pub build_folds :
    ⦃h : Hashing⦄
    → ℕ
    → List ℕ
    → WalkForwardSplitConfig
    → ℕ
    → ℕ
    → Result WalkForwardError (List WalkForwardFold)
build_folds zero sessions c offset index = err out_of_fuel
build_folds (suc fuel) sessions c offset index =
    let round = (do
      fold ← make_fold (fold_at sessions c offset index)
      rest ← build_folds fuel sessions c (offset + c.step_sessions) (index + 1)
      ok (fold ∷ rest)) in
    if ltb (length sessions) (oos_end c offset) then ok [] else round

abbrev pub names_from : ℕ → List WalkForwardFold → List String
unfolding fold_name
names_from index [] = []
names_from index (_ ∷ fs) = fold_name index ∷ names_from (index + 1) fs

-- Each fold's out-of-sample window ends before that of the next begins.
unfoldable pub apart : List WalkForwardFold → Bool
unfolding ends_before
apart [] = true
apart (_ ∷ []) = true
apart (f ∷ g ∷ fs) = ends_before f.out_of_sample_sessions g.out_of_sample_sessions && apart (g ∷ fs)

unfoldable pub input_payload : String → List ℕ → Json
input_payload config sessions =
    obj (field "config_hash" (text config) (field "sessions" (days sessions) end))

unfoldable pub result_payload : List WalkForwardFold → String → Json
result_payload folds input =
    obj (field "folds" (texts (map (λ f. f.fold_hash) folds)) (field "input_hash" (text input) end))

-- The checks of `WalkForwardPlan.__post_init__` behind the normalisation of the version.
unfoldable pub valid_plan : ⦃h : Hashing⦄ → WalkForwardPlan → Bool
unfolding fold_name apart input_payload result_payload
valid_plan p =
    is_chronological p.sessions
    && (is_sha256 p.split_config_hash && is_sha256 p.input_hash && is_sha256 p.result_hash)
    && not (is_nil p.folds)
    && texts_beq (map (λ f. f.fold_id) p.folds) (names_from 1 p.folds)
    && all (λ f. f.split_config_hash =s= p.split_config_hash) p.folds
    && apart p.folds
    && (p.input_hash =s= stable_hash (input_payload p.split_config_hash p.sessions))
    && (p.result_hash =s= stable_hash (result_payload p.folds p.input_hash))

-- `WalkForwardPlan(...)`
unfoldable pub make_plan : ⦃h : Hashing⦄ → WalkForwardPlan → Result WalkForwardError WalkForwardPlan
make_plan p = do
  raise_if (is_blank p.split_config_version) value_error
  let normal = record p { split_config_version = strip p.split_config_version }
  raise_if (not (valid_plan normal)) value_error
  ok normal

abbrev pub required : WalkForwardSplitConfig → ℕ
required c = c.train_sessions + c.validation_sessions + c.out_of_sample_sessions

unfoldable pub plan_of :
    ⦃h : Hashing⦄ → List ℕ → WalkForwardSplitConfig → List WalkForwardFold → WalkForwardPlan
unfolding input_payload result_payload
plan_of sessions c folds =
    let input = stable_hash (input_payload (config_hash c) sessions) in
    record {
      sessions = sessions;
      split_config_version = c.version;
      split_config_hash = config_hash c;
      folds = folds;
      input_hash = input;
      result_hash = stable_hash (result_payload folds input);
    }

-- `build_walk_forward_plan`
unfoldable pub build_walk_forward_plan :
    ⦃h : Hashing⦄ → List ℕ → WalkForwardSplitConfig → Result WalkForwardError WalkForwardPlan
unfolding build_folds plan_of make_plan
build_walk_forward_plan sessions c = do
  raise_if (not (is_chronological sessions)) not_chronological
  raise_if (ltb (length sessions) (required c)) too_few_sessions
  folds ← build_folds (suc (length sessions)) sessions c 0 1
  make_plan (plan_of sessions c folds)
