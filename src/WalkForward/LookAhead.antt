-- ===== src/WalkForward/LookAhead.antt =====
-- Walk-forward folds do not look ahead, and as many are made as fit.
use mathlib.Core.Path.{subst}
use quant_agent.Prelude.{
  ℕ, zero, suc, ◌+◌, ◌-◌, ◌*◌, ◌≤◌, ◌<◌, ◌≡◌, refl, sym, ap, inl, inr, Bool-cases, if◌then◌else◌,
  List, [], ◌∷◌, length, All, arith, ok,
}
use quant_agent.Canonical.{Hashing}
use quant_agent.WalkForward.Contracts.{
  WalkForwardSplitConfig, WalkForwardFold, WalkForwardPlan, make_config,
}
use quant_agent.WalkForward.Splitter.{
  train_start, train_end, validation_end, fold_at, oos_end, plan_of, required,
  build_walk_forward_plan,
}
use quant_agent.WalkForward.Windows.{Increasing, AllBefore, slice-AllBefore, length-slice}
use quant_agent.WalkForward.Folds.{IsSound, fold_sizes}
use quant_agent.WalkForward.Totality.{
  folds_from, fold_count, Fit, fold_count-Fit, division, oos-AllBefore,
}
use quant_agent.WalkForward.Plan.{build_walk_forward_plan-IsBuilt}

-- The windows of a fold are in order, validation and out-of-sample of the configured sizes.
abbrev pub LooksBack : WalkForwardSplitConfig → WalkForwardFold → Type 0
LooksBack c f =
    AllBefore f.train_sessions f.validation_sessions
    × AllBefore f.validation_sessions f.out_of_sample_sessions
    × (0 < length f.train_sessions)
    × (length f.validation_sessions ≡ c.validation_sessions)
    × (length f.out_of_sample_sessions ≡ c.out_of_sample_sessions)

-- The first training window has this size, and each is larger than the one before it by `growth`.
abbrev pub HasTraining : ℕ → ℕ → List WalkForwardFold → Type 0
HasTraining size growth [] = Unit
HasTraining size growth (f ∷ fs) =
    (length f.train_sessions ≡ size) × HasTraining (size + growth) growth fs

-- An expanding training window grows by the step of the folds, a rolling one stays as it is.
abbrev pub growth : WalkForwardSplitConfig → ℕ
growth c = if c.expanding_train then c.step_sessions else 0

-- The size of the training window at an offset.
abbrev train_size : WalkForwardSplitConfig → ℕ → ℕ
train_size c offset = if c.expanding_train then c.train_sessions + offset else c.train_sessions

-- Every out-of-sample window is before those of all later folds.
abbrev pub OutOfSampleApart : List WalkForwardFold → Type 0
OutOfSampleApart [] = Unit
OutOfSampleApart (f ∷ fs) =
    All (λ g. AllBefore f.out_of_sample_sessions g.out_of_sample_sessions) fs × OutOfSampleApart fs

module _ ⦃h : Hashing⦄ (sessions : List ℕ) (c : WalkForwardSplitConfig)
    (chronological : Increasing sessions) (sound : IsSound c) where
  fold_at-LooksBack :
      (offset index : ℕ)
      → oos_end c offset ≤ length sessions
      → LooksBack c (fold_at sessions c offset index)
  unfolding fold_at
  fold_at-LooksBack offset index fits =
      let (train, validation, out_of_sample) =
        fold_sizes sessions c chronological sound offset fits index in
      (
        slice-AllBefore (train_start c offset) (train_end c offset) (train_end c offset)
            (validation_end c offset) sessions chronological (omega arith),
        slice-AllBefore (train_end c offset) (validation_end c offset) (validation_end c offset)
            (oos_end c offset) sessions chronological (omega arith),
        train,
        validation,
        out_of_sample,
      )

  folds_from-LooksBack :
      (count offset index : ℕ)
      → Fit sessions c count offset
      → All (LooksBack c) (folds_from sessions c count offset index)
  folds_from-LooksBack zero offset index fit = tt
  folds_from-LooksBack (suc count) offset index (fits, rest) = (
    fold_at-LooksBack offset index fits,
    folds_from-LooksBack count (offset + c.step_sessions) (index + 1) rest,
  )

  later-AllBefore :
      (first number count offset index : ℕ)
      → first + c.step_sessions ≤ offset
      → All
          (λ g.
            AllBefore
              (fold_at sessions c first number).out_of_sample_sessions
              g.out_of_sample_sessions)
          (folds_from sessions c count offset index)
  later-AllBefore first number zero offset index le = tt
  later-AllBefore first number (suc count) offset index le = (
    oos-AllBefore sessions c chronological sound first offset number index le,
    later-AllBefore first number count (offset + c.step_sessions) (index + 1) (omega arith),
  )

  folds_from-OutOfSampleApart :
      (count offset index : ℕ) → OutOfSampleApart (folds_from sessions c count offset index)
  folds_from-OutOfSampleApart zero offset index = tt
  folds_from-OutOfSampleApart (suc count) offset index = (
    later-AllBefore offset index count (offset + c.step_sessions) (index + 1) (omega arith),
    folds_from-OutOfSampleApart count (offset + c.step_sessions) (index + 1),
  )

  length-train :
      (offset index : ℕ)
      → oos_end c offset ≤ length sessions
      → length (fold_at sessions c offset index).train_sessions ≡ train_size c offset
  unfolding fold_at
  length-train offset index fits = elim (Bool-cases c.expanding_train) [
    | inl expanding ↦ rw expanding (omega (arith, length-slice 0 (train_end c offset) sessions))
    | inr rolling ↦ rw rolling (omega (arith, length-slice offset (train_end c offset) sessions))
  ]

  next_size :
      (offset : ℕ) → train_size c offset + growth c ≡ train_size c (offset + c.step_sessions)
  next_size offset = elim (Bool-cases c.expanding_train) [
    | inl expanding ↦ rw expanding (omega arith)
    | inr rolling ↦ rw rolling (omega arith)
  ]

  folds_from-HasTraining :
      (count offset index : ℕ)
      → Fit sessions c count offset
      → HasTraining (train_size c offset) (growth c) (folds_from sessions c count offset index)
  folds_from-HasTraining zero offset index fit = tt
  folds_from-HasTraining (suc count) offset index (fits, rest) = (
    length-train offset index fits,
    subst
        (λ size.
          HasTraining size (growth c)
            (folds_from sessions c count (offset + c.step_sessions) (index + 1)))
        (sym (next_size offset))
        (folds_from-HasTraining count (offset + c.step_sessions) (index + 1) rest),
  )

length-folds_from :
    ⦃h : Hashing⦄ (sessions : List ℕ) (c : WalkForwardSplitConfig) (count offset index : ℕ)
    → length (folds_from sessions c count offset index) ≡ count
length-folds_from sessions c zero offset index = refl
length-folds_from sessions c (suc count) offset index =
    ap suc (length-folds_from sessions c count (offset + c.step_sessions) (index + 1))

step_pos : (c : WalkForwardSplitConfig) → IsSound c → 0 < c.step_sessions
step_pos c sound = omega (arith, sound.out_of_sample_pos, sound.step_apart)

first_size : (c : WalkForwardSplitConfig) → train_size c 0 ≡ c.train_sessions
first_size c = elim (Bool-cases c.expanding_train) [
  | inl expanding ↦ rw expanding (omega arith)
  | inr rolling ↦ rw rolling refl
]

-- In every plan that is returned for an accepted configuration, every session of a fold's training
-- window is before every session of its validation window, and these are before every session of its
-- out-of-sample window; the latter two windows have the configured sizes, and so has the first
-- training window; a later training window has the size of the one before it if windows roll, and
-- is larger by the step if they expand; and the out-of-sample window of a fold is before those of
-- all later folds.
pub folds_never_look_ahead :
    ⦃h : Hashing⦄ (sessions : List ℕ) (given c : WalkForwardSplitConfig) (p : WalkForwardPlan)
    → make_config given ≡ ok c
    → build_walk_forward_plan sessions c ≡ ok p
    → All (LooksBack c) p.folds
      × HasTraining c.train_sessions (growth c) p.folds
      × OutOfSampleApart p.folds
unfolding plan_of
folds_never_look_ahead sessions given c p made built =
    let b = build_walk_forward_plan-IsBuilt sessions given c p made built in
    let fit = fold_count-Fit sessions c (step_pos c b.sound) b.enough in
    let count = fold_count sessions c in
    subst
      (λ q.
        All (LooksBack c) q.folds
        × HasTraining c.train_sessions (growth c) q.folds
        × OutOfSampleApart q.folds)
      b.plan
      (
        folds_from-LooksBack sessions c b.chronological b.sound count 0 1 fit,
        subst (λ size. HasTraining size (growth c) (folds_from sessions c count 0 1)) (first_size c)
            (folds_from-HasTraining sessions c b.chronological b.sound count 0 1 fit),
        folds_from-OutOfSampleApart sessions c b.chronological b.sound count 0 1,
      )

-- A plan that is returned for an accepted configuration has as many folds as fit: with the steps
-- between them they need at most the given sessions, and one more fold would need more.
pub fold_count_bounds :
    ⦃h : Hashing⦄ (sessions : List ℕ) (given c : WalkForwardSplitConfig) (p : WalkForwardPlan)
    → make_config given ≡ ok c
    → build_walk_forward_plan sessions c ≡ ok p
    → (required c + length p.folds * c.step_sessions ≤ length sessions + c.step_sessions)
      × (length sessions < required c + length p.folds * c.step_sessions)
unfolding plan_of
fold_count_bounds sessions given c p made built =
    let b = build_walk_forward_plan-IsBuilt sessions given c p made built in
    let (low, high) =
      division (length sessions - required c) c.step_sessions (step_pos c b.sound) in
    let enough = b.enough in
    subst
      (λ q.
        (required c + length q.folds * c.step_sessions ≤ length sessions + c.step_sessions)
        × (length sessions < required c + length q.folds * c.step_sessions))
      b.plan
      (rw (length-folds_from sessions c (fold_count sessions c) 0 1) (omega arith, omega arith))
