-- ===== src/WalkForward/Contracts.antt =====
-- The configuration, the folds and the plan of packages/quant_agent/backtest/validation/contracts.py.
-- A date is a number of days.
use quant_agent.Prelude.{
  ℕ, String, Bool, true, false, not, ◌&&◌, none, some, List, [], ◌∷◌, Result, ok, ◌>>◌, raise_if,
  leb, ltb, ◌==◌, any, is_nil, is_sha256, is_blank, strip, ◌=s=◌, last?,
}
use Prim.Native.Nat.{compare, Ordering}
use quant_agent.Canonical.{
  Hashing, stable_hash, Json, flag, int, day, text, arr, obj, Items, nil, cons, end, field,
}

-- `WalkForwardValidationError` in its two uses, and a `ValueError` of a constructor. The last one
-- stands for a loop that was given too little fuel.
pub data WalkForwardError : Type 0 where
  not_chronological too_few_sessions value_error out_of_fuel : WalkForwardError

pub record WalkForwardSplitConfig : Type 0 where
  pub version : String
  pub train_sessions : ℕ
  pub validation_sessions : ℕ
  pub out_of_sample_sessions : ℕ
  pub step_sessions : ℕ
  pub expanding_train : Bool

-- `WalkForwardSplitConfig.__post_init__`
unfoldable pub make_config : WalkForwardSplitConfig → Result WalkForwardError WalkForwardSplitConfig
make_config c = do
  raise_if (is_blank c.version) value_error
  raise_if
      (any (λ n. ltb n 1)
        (c.train_sessions ∷ c.validation_sessions ∷ c.out_of_sample_sessions ∷ c.step_sessions
          ∷ []))
      value_error
  raise_if (ltb c.step_sessions c.out_of_sample_sessions) value_error
  ok (record c { version = strip c.version })

-- `config_hash`: what `asdict` gives.
unfoldable pub config_hash : ⦃h : Hashing⦄ → WalkForwardSplitConfig → String
config_hash c = stable_hash (
    obj (
      field "version" (text c.version) (
        field "train_sessions" (int c.train_sessions) (
          field "validation_sessions" (int c.validation_sessions) (
            field "out_of_sample_sessions" (int c.out_of_sample_sessions) (
              field "step_sessions" (int c.step_sessions)
                (field "expanding_train" (flag c.expanding_train) end)))))))

pub record WalkForwardFold : Type 0 where
  pub fold_id : String
  pub train_sessions : List ℕ
  pub validation_sessions : List ℕ
  pub out_of_sample_sessions : List ℕ
  pub split_config_hash : String
  pub fold_hash : String

pub record WalkForwardPlan : Type 0 where
  pub sessions : List ℕ
  pub split_config_version : String
  pub split_config_hash : String
  pub folds : List WalkForwardFold
  pub input_hash : String
  pub result_hash : String

-- One more element of `sorted(set(...))`.
unfoldable pub insert_day : ℕ → List ℕ → List ℕ
insert_day x [] = x ∷ []
insert_day x (y ∷ ys) =
    let rest = insert_day x ys in
    elim (compare x y) [ Ordering.lt ↦ x ∷ y ∷ ys | Ordering.eq ↦ y ∷ ys | Ordering.gt ↦ y ∷ rest ]

unfoldable pub sorted_days : List ℕ → List ℕ
unfolding insert_day
sorted_days [] = []
sorted_days (x ∷ xs) = insert_day x (sorted_days xs)

abbrev pub days_beq : List ℕ → List ℕ → Bool
days_beq [] [] = true
days_beq (x ∷ xs) (y ∷ ys) = x == y && days_beq xs ys
days_beq _ _ = false

-- `tuple(sorted(set(values))) == values`
unfoldable pub is_chronological : List ℕ → Bool
unfolding sorted_days
is_chronological days = days_beq (sorted_days days) days

abbrev day_items : List ℕ → Items
day_items [] = nil
day_items (d ∷ ds) = cons (day d) (day_items ds)

abbrev pub days : List ℕ → Json
days ds = arr (day_items ds)

-- What the hash of a fold is taken of.
unfoldable pub fold_payload : String → List ℕ → List ℕ → List ℕ → String → Json
fold_payload fold_id train validation out_of_sample config = obj (
    field "fold_id" (text fold_id) (
      field "out_of_sample_sessions" (days out_of_sample) (
        field "split_config_hash" (text config) (
          field "train_sessions" (days train)
            (field "validation_sessions" (days validation) end)))))

-- `a[-1] < b[0]`; the lists are not empty where it is asked.
unfoldable pub ends_before : List ℕ → List ℕ → Bool
ends_before xs [] = false
ends_before xs (y ∷ ys) = elim (last? xs) [ none ↦ false | some x ↦ ltb x y ]

-- `b[0] <= b[-1]`
unfoldable pub spans : List ℕ → Bool
spans [] = false
spans (y ∷ ys) = elim (last? (y ∷ ys)) [ none ↦ false | some x ↦ leb y x ]

abbrev is_window : List ℕ → Bool
is_window xs = not (is_nil xs) && is_chronological xs

-- The checks of `WalkForwardFold.__post_init__` behind the normalisation of `fold_id`.
unfoldable pub valid_fold : ⦃h : Hashing⦄ → WalkForwardFold → Bool
unfolding ends_before spans is_chronological fold_payload
valid_fold f =
    is_sha256 f.split_config_hash
    && is_sha256 f.fold_hash
    && (is_window f.train_sessions
        && is_window f.validation_sessions
        && is_window f.out_of_sample_sessions)
    && (ends_before f.train_sessions f.validation_sessions
        && spans f.validation_sessions
        && ends_before f.validation_sessions f.out_of_sample_sessions)
    && (f.fold_hash
        =s= stable_hash (
            fold_payload f.fold_id f.train_sessions f.validation_sessions f.out_of_sample_sessions
              f.split_config_hash))

-- `WalkForwardFold(...)`
unfoldable pub make_fold : ⦃h : Hashing⦄ → WalkForwardFold → Result WalkForwardError WalkForwardFold
make_fold f = do
  raise_if (is_blank f.fold_id) value_error
  let normal = record f { fold_id = strip f.fold_id }
  raise_if (not (valid_fold normal)) value_error
  ok normal
