-- ===== src/Paper/AccountFacts.antt =====
-- What the constructors of fills and accounts leave and have checked.
use mathlib.Core.Path.{subst}
use quant_agent.Prelude.{
  ◌+◌, ◌≡◌, refl, ap, Bool, true, false, not, ◌||◌, List, [], ◌∷◌, map, All, total, total-sort_by,
  sort_by, ok, arith, int_laws, eq_of_parts, pos_part, neg_part, passed-ok, checked-ok, strip,
  strip_idem, is_blank, is_blank-strip, IsStrict, sorted_set-IsStrict_itself, texts_beq, sorted_set,
}
use quant_agent.Canonical.{Hashing}
use quant_agent.Paper.Contracts.{value_error, Platform}
use quant_agent.Paper.Fills.{PaperFill, make_fill}
use quant_agent.Paper.Accounts.{PaperAccountState, valid_account, make_account}
use quant_agent.Paper.Trades.{cash_sum}
use quant_agent.Paper.Shares.{IsPosition}

-- A fill, and an account with its positions, that passed their constructors.
abbrev pub IsFill : ⦃h : Hashing⦄ ⦃p : Platform⦄ → PaperFill → Type 0
IsFill f = make_fill f ≡ ok f

abbrev pub IsAccount : ⦃h : Hashing⦄ ⦃p : Platform⦄ → PaperAccountState → Type 0
IsAccount a = (make_account a ≡ ok a) × All IsPosition a.positions

pub IsFill-stripped :
    ⦃h : Hashing⦄ ⦃p : Platform⦄ (fs : List PaperFill)
    → All IsFill fs
    → All (λ f. strip f.instrument_id ≡ f.instrument_id) fs
unfolding make_fill
IsFill-stripped [] fills = tt
IsFill-stripped (f ∷ fs) (made, fills) =
    let (_, rest) = passed-ok _ value_error _ f made in
    let (_, same) = checked-ok _ value_error _ f rest in
    (ap (λ g. g.instrument_id) same, IsFill-stripped fs fills)

-- What the constructor leaves of an account, and that it passes again.
pub make_account_idem :
    ⦃h : Hashing⦄ (given a : PaperAccountState)
    → make_account given ≡ ok a
    → (make_account a ≡ ok a)
      × (a.positions ≡ given.positions)
      × (a.total_cash ≡ given.total_cash)
      × (a.as_of ≡ given.as_of)
      × (a.processed_batch_hashes ≡ given.processed_batch_hashes)
unfolding make_account
make_account_idem given a made =
    let normal : PaperAccountState = record given {
      account_id = strip given.account_id;
      data_version = strip given.data_version;
      currency = strip given.currency;
      source_snapshot_id = strip given.source_snapshot_id;
    } in
    let (named, rest) =
      passed-ok
        (is_blank given.account_id
          || is_blank given.data_version
          || is_blank given.currency
          || is_blank given.source_snapshot_id)
        value_error _ a made in
    let (valid, same) = checked-ok (not (valid_account normal)) value_error normal a rest in
    let again : make_account normal ≡ ok normal =
      rw
        (
          is_blank-strip given.account_id,
          is_blank-strip given.data_version,
          is_blank-strip given.currency,
          is_blank-strip given.source_snapshot_id,
          named,
          strip_idem given.account_id,
          strip_idem given.data_version,
          strip_idem given.currency,
          strip_idem given.source_snapshot_id,
          valid,
        )
        refl in
    subst
      (λ b.
        (make_account b ≡ ok b)
        × (b.positions ≡ given.positions)
        × (b.total_cash ≡ given.total_cash)
        × (b.as_of ≡ given.as_of)
        × (b.processed_batch_hashes ≡ given.processed_batch_hashes))
      same (again, refl, refl, refl, refl)

valid_account-positions :
    ⦃h : Hashing⦄ (a : PaperAccountState)
    → not (valid_account a) ≡ false
    → texts_beq
        (sorted_set (map (λ p. p.instrument_id) a.positions))
        (map (λ p. p.instrument_id) a.positions)
      ≡ true
unfolding valid_account
valid_account-positions a valid = ground arith

pub make_account-IsStrict :
    ⦃h : Hashing⦄ (given a : PaperAccountState)
    → make_account given ≡ ok a
    → IsStrict (map (λ p. p.instrument_id) given.positions)
unfolding make_account
make_account-IsStrict given a made =
    let (_, rest) = passed-ok _ value_error _ a made in
    let (valid, _) = checked-ok _ value_error _ a rest in
    sorted_set-IsStrict_itself _ (valid_account-positions _ valid)

cash_sum-parts :
    (fs : List PaperFill)
    → pos_part (cash_sum fs) + total (λ f. neg_part f.cash_change) fs
      ≡ neg_part (cash_sum fs) + total (λ f. pos_part f.cash_change) fs
cash_sum-parts [] = refl
cash_sum-parts (f ∷ fs) = omega (int_laws, cash_sum-parts fs)

pub cash_sum-sort_by :
    (before : PaperFill → PaperFill → Bool) (fs : List PaperFill)
    → cash_sum (sort_by before fs) ≡ cash_sum fs
cash_sum-sort_by before fs =
    let here = cash_sum-parts fs in
    let there = cash_sum-parts (sort_by before fs) in
    let gains = total-sort_by before (λ f. pos_part f.cash_change) fs in
    let losses = total-sort_by before (λ f. neg_part f.cash_change) fs in
    eq_of_parts (cash_sum (sort_by before fs)) (cash_sum fs) (omega arith)
