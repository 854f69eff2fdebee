-- ===== src/WalkForward/Folds.antt =====
-- The folds of a round: windows of the configured sizes, in order, that pass the checks of
-- `WalkForwardFold`.
use quant_agent.Prelude.{
  ℕ, ◌≤◌, ◌<◌, ◌≡◌, refl, true, false, not, some, List, [], ◌∷◌, length, take, is_nil, last?, All,
  lt→ltb, arith, ok, is_blank, strip, eq_iff, is_sha256,
}
use quant_agent.Canonical.{Hashing, stable_hash}
use quant_agent.WalkForward.Contracts.{
  WalkForwardSplitConfig, WalkForwardFold, ends_before, spans, valid_fold, make_fold, config_hash,
  fold_payload,
}
use quant_agent.WalkForward.Splitter.{
  slice, fold_at, train_start, train_end, validation_end, oos_end,
}
use quant_agent.WalkForward.Names.{strip-fold_name, is_blank-fold_name}
use quant_agent.WalkForward.Windows.{
  Increasing, Increasing-take, Increasing-drop, AllBefore, slice-AllBefore, length-slice,
  Increasing-is_chronological,
}

-- What `WalkForwardSplitConfig.__post_init__` leaves.
pub record IsSound (c : WalkForwardSplitConfig) : Type 0 where
  pub train_pos : 0 < c.train_sessions
  pub validation_pos : 0 < c.validation_sessions
  pub out_of_sample_pos : 0 < c.out_of_sample_sessions
  pub step_apart : c.out_of_sample_sessions ≤ c.step_sessions
  pub named : is_blank c.version ≡ false
  pub stripped : strip c.version ≡ c.version

last?-All :
    (P : ℕ → Type 0) (x : ℕ) (xs : List ℕ)
    → All P (x ∷ xs)
    → (y : ℕ) × (last? (x ∷ xs) ≡ some y) × P y
last?-All P x [] (p, _) = (x, refl, p)
last?-All P x (z ∷ zs) (_, ps) = last?-All P z zs ps

pub AllBefore-ends_before :
    (xs ys : List ℕ) → AllBefore xs ys → 0 < length xs → 0 < length ys → ends_before xs ys ≡ true
unfolding ends_before
AllBefore-ends_before [] ys h p q = absurd (omega arith)
AllBefore-ends_before (x ∷ xs) [] h p q = absurd (omega arith)
AllBefore-ends_before (x ∷ xs) (y ∷ ys) h p q =
    let (z, last, (first, _)) = last?-All (λ a. All (λ b. a < b) (y ∷ ys)) x xs h in
    rw (ends_before, last) (lt→ltb z y first)

All-weaken : (x : ℕ) (xs : List ℕ) → All (λ y. x < y) xs → All (λ y. x ≤ y) xs
All-weaken x [] h = tt
All-weaken x (y ∷ ys) (p, ps) = (omega arith, All-weaken x ys ps)

Increasing-spans : (xs : List ℕ) → Increasing xs → 0 < length xs → spans xs ≡ true
unfolding spans
Increasing-spans [] h p = absurd (omega arith)
Increasing-spans (x ∷ xs) (h, _) p =
    let (z, last, first) = last?-All (λ y. x ≤ y) x xs (omega arith, All-weaken x xs h) in
    rw (spans, last) (ground arith)

positive-not-is_nil : (xs : List ℕ) → 0 < length xs → not (is_nil xs) ≡ true
positive-not-is_nil [] p = absurd (omega arith)
positive-not-is_nil (x ∷ xs) p = refl

pub slice-Increasing : (a b : ℕ) (xs : List ℕ) → Increasing xs → Increasing (slice a b xs)
slice-Increasing a b xs h = Increasing-drop a (take b xs) (Increasing-take b xs h)

-- The checks of a fold from facts about its windows.
valid_fold_intro :
    ⦃h : Hashing⦄ (f : WalkForwardFold)
    → is_sha256 f.split_config_hash ≡ true
    → is_sha256 f.fold_hash ≡ true
    → Increasing f.train_sessions
      × Increasing f.validation_sessions
      × Increasing f.out_of_sample_sessions
    → (0 < length f.train_sessions)
      × (0 < length f.validation_sessions)
      × (0 < length f.out_of_sample_sessions)
    → AllBefore f.train_sessions f.validation_sessions
    → AllBefore f.validation_sessions f.out_of_sample_sessions
    → f.fold_hash
      ≡ stable_hash (
          fold_payload f.fold_id f.train_sessions f.validation_sessions f.out_of_sample_sessions
            f.split_config_hash)
    → valid_fold f ≡ true
unfolding valid_fold
valid_fold_intro f config own (t, v, o) (t_some, v_some, o_some) t_before v_before bound =
    rw
      (
        config,
        own,
        positive-not-is_nil f.train_sessions t_some,
        positive-not-is_nil f.validation_sessions v_some,
        positive-not-is_nil f.out_of_sample_sessions o_some,
        Increasing-is_chronological f.train_sessions t,
        Increasing-is_chronological f.validation_sessions v,
        Increasing-is_chronological f.out_of_sample_sessions o,
        AllBefore-ends_before f.train_sessions f.validation_sessions t_before t_some v_some,
        Increasing-spans f.validation_sessions v v_some,
        AllBefore-ends_before f.validation_sessions f.out_of_sample_sessions v_before v_some o_some,
      )
      ((eq_iff f.fold_hash _).1 bound)

train_start-le : (c : WalkForwardSplitConfig) (offset : ℕ) → train_start c offset ≤ offset
train_start-le c offset = ground arith

module _ ⦃h : Hashing⦄ (sessions : List ℕ) (c : WalkForwardSplitConfig)
    (chronological : Increasing sessions) (sound : IsSound c) (offset : ℕ)
    (fits : oos_end c offset ≤ length sessions) (index : ℕ) where
  -- The windows of a round have at least one session, exactly the configured number where the
  -- window does not grow.
  pub fold_sizes :
      (0 < length (fold_at sessions c offset index).train_sessions)
      × (length (fold_at sessions c offset index).validation_sessions ≡ c.validation_sessions)
      × (length (fold_at sessions c offset index).out_of_sample_sessions ≡ c.out_of_sample_sessions)
  unfolding fold_at
  fold_sizes = omega (
    arith,
    train_start-le c offset,
    length-slice (train_start c offset) (train_end c offset) sessions,
    length-slice (train_end c offset) (validation_end c offset) sessions,
    length-slice (validation_end c offset) (oos_end c offset) sessions,
    sound.train_pos,
  )

  valid_fold-fold_at : valid_fold (fold_at sessions c offset index) ≡ true
  unfolding fold_at config_hash
  valid_fold-fold_at =
      let (train, validation, out_of_sample) = fold_sizes in
      valid_fold_intro (fold_at sessions c offset index) (h.digest _) (h.digest _)
        (
          slice-Increasing (train_start c offset) (train_end c offset) sessions chronological,
          slice-Increasing (train_end c offset) (validation_end c offset) sessions chronological,
          slice-Increasing (validation_end c offset) (oos_end c offset) sessions chronological,
        )
        (train, omega (arith, sound.validation_pos), omega (arith, sound.out_of_sample_pos))
        (slice-AllBefore (train_start c offset) (train_end c offset) (train_end c offset)
          (validation_end c offset) sessions chronological (omega arith))
        (slice-AllBefore (train_end c offset) (validation_end c offset) (validation_end c offset)
          (oos_end c offset) sessions chronological (omega arith))
        refl

  pub make_fold-fold_at :
      make_fold (fold_at sessions c offset index) ≡ ok (fold_at sessions c offset index)
  unfolding make_fold fold_at
  make_fold-fold_at =
      rw (is_blank-fold_name index, strip-fold_name index) (rw valid_fold-fold_at refl)
