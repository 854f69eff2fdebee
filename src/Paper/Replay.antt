-- ===== src/Paper/Replay.antt =====
-- A replay neither makes nor loses cash or shares, and gives an account that passes its constructor.
use mathlib.Core.Path.{subst}
use quant_agent.Prelude.{
  ◌+◌, ◌≡◌, refl, sym, ap, ◌∙◌, String, List, [], ◌∷◌, All, total, total-sort_by, All-sort_by,
  sort_by, text_leb, ok, arith, ◌+ℤ◌, bind-ok, passed-ok, strip,
}
use quant_agent.Canonical.{Hashing}
use quant_agent.Dict.{get}
use quant_agent.Paper.Contracts.{value_error, buy, sell, Platform}
use quant_agent.Paper.Positions.{PaperPosition}
use quant_agent.Paper.Accounts.{
  PaperAccountState, make_account, rebuild_positions, order_leb, position_leb, build_account,
}
use quant_agent.Paper.Transition.{
  orders_by_id, position_lots, fill_leb, apply_fills, entry_leb, positions_from_lots,
  build_positions, Ledger, Execution, check_execution, account_after, replay_execution_transition,
}
use quant_agent.Paper.Ledger.{entry_shares, IsEntry}
use quant_agent.Paper.Trades.{traded, cash_sum, apply_fills-shares}
use quant_agent.Paper.Shares.{
  IsPosition, IsFresh, position_shares, account_shares, position_lots-shares,
}
use quant_agent.Paper.Built.{build_positions-shares, rebuild_positions-shares}
use quant_agent.Paper.AccountFacts.{
  IsFill, IsAccount, IsFill-stripped, make_account_idem, make_account-IsStrict, cash_sum-sort_by,
}

IsFresh-nothing : (xs : List PaperPosition) → IsFresh [] xs
unfolding get
IsFresh-nothing [] = tt
IsFresh-nothing (x ∷ xs) = (refl, IsFresh-nothing xs)

module _ ⦃h : Hashing⦄ ⦃p : Platform⦄ where
  -- An account that was built, and the positions that were built for it.
  pub build_account-inv :
      (given a : PaperAccountState)
      → build_account given ≡ ok a
      → (xs : List PaperPosition) × (rebuild_positions given.as_of
            (sort_by order_leb given.orders)
            (sort_by position_leb given.positions)
          ≡ ok xs)
        × (make_account a ≡ ok a)
        × (a.positions ≡ xs)
        × (a.total_cash ≡ given.total_cash)
        × (a.as_of ≡ given.as_of)
        × (a.processed_batch_hashes ≡ sort_by text_leb given.processed_batch_hashes)
  unfolding build_account
  build_account-inv given a built =
      let orders = sort_by order_leb given.orders in
      let provided = sort_by position_leb given.positions in
      let (_, b1) = passed-ok _ value_error _ a built in
      let (_, b2) = passed-ok _ value_error _ a b1 in
      let (xs, rebuilt, b3) = bind-ok (rebuild_positions given.as_of orders provided) _ b2 in
      let (_, b4) = passed-ok _ value_error _ a b3 in
      let (_, b5) = passed-ok _ value_error _ a b4 in
      let (again, same, cash, time, batches) = make_account_idem _ a b5 in
      (xs, rebuilt, again, same, cash, time, batches)

  pub build_account-shares :
      (id : String) (given a : PaperAccountState)
      → All IsPosition given.positions
      → build_account given ≡ ok a
      → IsAccount a
        × (a.total_cash ≡ given.total_cash)
        × (account_shares id a.positions ≡ account_shares id given.positions)
  build_account-shares id given a positions built =
      let provided = sort_by position_leb given.positions in
      let (xs, rebuilt, again, same, cash, _, _) = build_account-inv given a built in
      let (valid, shares) =
        rebuild_positions-shares id given.as_of (sort_by order_leb given.orders) provided xs
          (All-sort_by position_leb IsPosition given.positions positions) rebuilt in
      (
        (again, subst (All IsPosition) (sym same) valid),
        cash,
        ap (account_shares id) same
            ∙ shares
            ∙ total-sort_by position_leb (position_shares id) given.positions,
      )

  -- A replay that returns, from an account with positions and with fills that passed their
  -- constructors, gives an account with positions that passed theirs; its cash has changed by the
  -- sum of the fills' cash movements, and the shares of each instrument by the shares bought less
  -- the shares sold.
  pub replay_conserves :
      (before after : PaperAccountState) (x : Execution) (id : String)
      → IsAccount before
      → All IsFill x.fills
      → replay_execution_transition before x ≡ ok after
      → IsAccount after
        × (after.total_cash ≡ before.total_cash +ℤ cash_sum x.fills)
        × (account_shares id after.positions + total (traded sell id) x.fills
            ≡ account_shares id before.positions + total (traded buy id) x.fills)
  unfolding replay_execution_transition positions_from_lots account_after
  replay_conserves before after x id (account, positions) fills done =
      let start : Ledger = record {
        total_cash = before.total_cash;
        lots_by_instrument = position_lots [] before.positions;
      } in
      let (_, _, d1) = bind-ok (check_execution before x) _ done in
      let (s, traded_all, d2) =
        bind-ok (apply_fills (orders_by_id [] x.orders) start (sort_by fill_leb x.fills)) _ d1 in
      let (xs, built, d3) =
        bind-ok (build_positions x.processed_at (sort_by entry_leb s.lots_by_instrument)) _ d2 in
      let (entries, start_shares) =
        position_lots-shares id [] before.positions positions tt
          (make_account-IsStrict before before account) (IsFresh-nothing before.positions) in
      let (entries', cash, fill_shares) =
        apply_fills-shares (orders_by_id [] x.orders) id start s (sort_by fill_leb x.fills) entries
          (All-sort_by fill_leb (λ f. strip f.instrument_id ≡ f.instrument_id) x.fills
            (IsFill-stripped x.fills fills))
          traded_all in
      let (valid, built_shares) =
        build_positions-shares id x.processed_at (sort_by entry_leb s.lots_by_instrument) xs
          (All-sort_by entry_leb IsEntry s.lots_by_instrument entries') built in
      let (sound, total_cash, account_same) =
        build_account-shares id (account_after before x s xs) after valid d3 in
      let ledger_same = total-sort_by entry_leb (entry_shares id) s.lots_by_instrument in
      let bought = total-sort_by fill_leb (traded buy id) x.fills in
      let sold = total-sort_by fill_leb (traded sell id) x.fills in
      (
        sound,
        total_cash ∙ cash ∙ ap (λ c. before.total_cash +ℤ c) (cash_sum-sort_by fill_leb x.fills),
        omega arith,
      )
