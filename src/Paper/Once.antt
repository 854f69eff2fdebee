-- ===== src/Paper/Once.antt =====
-- A batch of orders is executed at most once, in any sequence of replays.
use mathlib.Core.Path.{subst}
use quant_agent.Prelude.{
  ◌≡◌, refl, sym, ap, ◌∙◌, inl, inr, Bool-cases, String, Bool, true, false, ◌||◌, List, [], ◌∷◌,
  ◌++◌, if◌then◌else◌, sort_by, insert_by, text_leb, text_in, ok, err, ltb, ◌=s=◌, bind-ok,
  beq_refl,
}
use quant_agent.Canonical.{Hashing}
use quant_agent.Paper.Contracts.{moved_backwards, batch_processed, Platform}
use quant_agent.Paper.Accounts.{PaperAccountState}
use quant_agent.Paper.Transition.{
  orders_by_id, fill_leb, apply_fills, positions_from_lots, Execution, check_execution,
  account_after, replay_execution_transition,
}
use quant_agent.Paper.Replay.{build_account-inv}

or_swap : (a b c : Bool) → (a || (b || c)) ≡ (b || (a || c))
or_swap true true c = refl
or_swap true false c = refl
or_swap false b c = refl

or_right : (a b : Bool) → b ≡ true → (a || b) ≡ true
or_right true b h = refl
or_right false b h = h

or_last : (a b : Bool) → a ≡ false → (a || b) ≡ true → b ≡ true
or_last true b e h = cc
or_last false b e h = h

text_in-insert_by :
    (x y : String) (ys : List String)
    → text_in x (insert_by text_leb y ys) ≡ ((x =s= y) || text_in x ys)
unfolding insert_by
text_in-insert_by x y [] = refl
text_in-insert_by x y (z ∷ zs) = elim (Bool-cases (text_leb y z)) [
  | inl first ↦ rw (text_in, first) refl
  | inr later ↦
      rw (text_in, later)
        (ap (λ b. (x =s= z) || b) (text_in-insert_by x y zs)
          ∙ or_swap (x =s= z) (x =s= y) (text_in x zs))
]

pub text_in-sort_by :
    (x : String) (ys : List String) → text_in x (sort_by text_leb ys) ≡ text_in x ys
unfolding sort_by
text_in-sort_by x [] = refl
text_in-sort_by x (y ∷ ys) =
    text_in-insert_by x y (sort_by text_leb ys) ∙ ap (λ b. (x =s= y) || b) (text_in-sort_by x ys)

text_in-append_last : (x : String) (ys : List String) → text_in x (ys ++ x ∷ []) ≡ true
text_in-append_last x [] = rw (beq_refl x) refl
text_in-append_last x (y ∷ ys) = or_right (x =s= y) _ (text_in-append_last x ys)

text_in-append_left :
    (x : String) (ys zs : List String) → text_in x ys ≡ true → text_in x (ys ++ zs) ≡ true
text_in-append_left x [] zs h = cc
text_in-append_left x (y ∷ ys) zs h = elim (Bool-cases (x =s= y)) [
  | inl same ↦ rw (text_in, same) refl
  | inr other ↦
      rw (text_in, other) (text_in-append_left x ys zs (or_last (x =s= y) (text_in x ys) other h))
]

-- One account follows on another by replays.
pub data Follows ⦃h : Hashing⦄ ⦃p : Platform⦄ (before : PaperAccountState)
    : PaperAccountState → Type 0 where
  itself : Follows before before
  replayed :
      {middle after : PaperAccountState}
      → Follows before middle
      → (x : Execution) → replay_execution_transition middle x ≡ ok after
      → Follows before after

module _ ⦃h : Hashing⦄ ⦃p : Platform⦄ where
  -- What a replay does to the time and to the processed batches.
  replay-inv :
      (before after : PaperAccountState) (x : Execution)
      → replay_execution_transition before x ≡ ok after
      → (after.as_of ≡ x.processed_at)
        × (after.processed_batch_hashes
            ≡ sort_by text_leb (before.processed_batch_hashes ++ x.batch_hash ∷ []))
  unfolding replay_execution_transition account_after
  replay-inv before after x done =
      let (_, _, d1) = bind-ok (check_execution before x) _ done in
      let (s, _, d2) =
        bind-ok (apply_fills (orders_by_id [] x.orders) _ (sort_by fill_leb x.fills)) _ d1 in
      let (xs, _, d3) = bind-ok (positions_from_lots s.lots_by_instrument x.processed_at) _ d2 in
      let (_, _, _, _, _, time, batches) =
        build_account-inv (account_after before x s xs) after d3 in
      (time, batches)

  Follows-processed :
      (batch : String) {before after : PaperAccountState}
      → text_in batch before.processed_batch_hashes ≡ true
      → Follows before after
      → text_in batch after.processed_batch_hashes ≡ true
  Follows-processed batch known itself = known
  Follows-processed batch {before} {after} known (replayed {middle} earlier x done) =
      let (_, batches) = replay-inv middle after x done in
      ap (text_in batch) batches
      ∙ text_in-sort_by batch (middle.processed_batch_hashes ++ x.batch_hash ∷ [])
      ∙ text_in-append_left batch middle.processed_batch_hashes (x.batch_hash ∷ [])
          (Follows-processed batch known earlier)

  processed-raises :
      (a : PaperAccountState) (y : Execution)
      → text_in y.batch_hash a.processed_batch_hashes ≡ true
      → replay_execution_transition a y
        ≡ err (if ltb y.processed_at a.as_of then moved_backwards else batch_processed)
  unfolding replay_execution_transition check_execution
  processed-raises a y known = elim (Bool-cases (ltb y.processed_at a.as_of)) [
    | inl early ↦ rw early refl
    | inr late ↦ rw (late, known) refl
  ]

  -- After a replay that returned, and any further replays, a replay of the same batch raises: that
  -- the account's time would move backwards if it is before the account's time, and otherwise that
  -- the batch was processed.
  pub batch_replays_once :
      (before middle after : PaperAccountState) (x y : Execution)
      → replay_execution_transition before x ≡ ok middle
      → Follows middle after
      → y.batch_hash ≡ x.batch_hash
      → replay_execution_transition after y
        ≡ err (if ltb y.processed_at after.as_of then moved_backwards else batch_processed)
  batch_replays_once before middle after x y done later same =
      let (_, batches) = replay-inv before middle x done in
      let known : text_in x.batch_hash middle.processed_batch_hashes ≡ true =
        ap (text_in x.batch_hash) batches
        ∙ text_in-sort_by x.batch_hash (before.processed_batch_hashes ++ x.batch_hash ∷ [])
        ∙ text_in-append_last x.batch_hash before.processed_batch_hashes in
      processed-raises after y (
        subst (λ b. text_in b after.processed_batch_hashes ≡ true) (sym same)
          (Follows-processed x.batch_hash known later))
