-- ===== src/Paper/RefreshFacts.antt =====
-- A refresh of an account moves no cash and no shares.
use mathlib.Core.Path.{subst}
use quant_agent.Prelude.{
  ℕ, ◌<◌, ◌≡◌, refl, ap, ◌∙◌, String, not, List, [], ◌∷◌, All, text_in, ok, leb, arith, bind-ok,
  passed-ok, ok_injective, ◌=s=◌,
}
use quant_agent.Canonical.{Hashing}
use quant_agent.Runtime.States.{paper, mode_beq}
use quant_agent.Paper.Contracts.{refresh_rejected, Platform}
use quant_agent.Paper.Positions.{PaperPosition, build_position}
use quant_agent.Paper.Accounts.{PaperAccountState, build_account}
use quant_agent.Paper.Shares.{IsPosition, account_shares}
use quant_agent.Paper.Built.{rebuilt-shares}
use quant_agent.Paper.AccountFacts.{IsAccount}
use quant_agent.Paper.Replay.{build_account-inv, build_account-shares}
use quant_agent.Paper.Once.{text_in-sort_by}
use quant_agent.Paper.Refresh.{
  AccountSnapshot, check_refresh, refresh_orders, refresh_positions, account_refreshed,
  validate_refresh_snapshot, replay_account_refresh,
}

check_refresh-newer :
    (a : PaperAccountState) (s : AccountSnapshot) → check_refresh a s ≡ ok tt → a.as_of < s.as_of
unfolding check_refresh
check_refresh-newer a s passed =
    let (_, c1) = passed-ok (not (mode_beq s.runtime_mode paper)) refresh_rejected _ tt passed in
    let (_, c2) = passed-ok (not (s.account_id =s= a.account_id)) refresh_rejected _ tt c1 in
    let (newer, _) = passed-ok (leb s.as_of a.as_of) refresh_rejected _ tt c2 in ground arith

module _ ⦃h : Hashing⦄ ⦃p : Platform⦄ where
  refresh_positions-shares :
      (id : String) (as_of : ℕ) (xs ys : List PaperPosition)
      → All IsPosition xs
      → refresh_positions as_of xs ≡ ok ys
      → All IsPosition ys × (account_shares id ys ≡ account_shares id xs)
  unfolding refresh_positions
  refresh_positions-shares id as_of [] ys positions built =
      subst (λ r. All IsPosition r × (account_shares id r ≡ 0)) (ok_injective [] ys built)
        (tt, refl)
  refresh_positions-shares id as_of (x ∷ xs) ys (position, positions) built =
      let (z, first, more) =
        bind-ok (build_position as_of x.instrument_id x.instrument_type x.lots 0) _ built in
      let (zs, later, same) = bind-ok (refresh_positions as_of xs) _ more in
      let (again, here) = rebuilt-shares id as_of 0 x z position first in
      let (rest, shares) = refresh_positions-shares id as_of xs zs positions later in
      subst (λ r. All IsPosition r × (account_shares id r ≡ account_shares id (x ∷ xs)))
        (ok_injective (z ∷ zs) ys same) ((again, rest), omega arith)

  -- A refresh that returns, of an account that passed its constructor with its positions, gives a
  -- later account that passes it with its positions, with the same total cash, the same shares of
  -- each instrument and the same batches processed.
  pub refresh_conserves :
      (before after : PaperAccountState) (s : AccountSnapshot) (id batch : String)
      → IsAccount before
      → replay_account_refresh before s ≡ ok after
      → IsAccount after
        × (before.as_of < after.as_of)
        × (after.total_cash ≡ before.total_cash)
        × (account_shares id after.positions ≡ account_shares id before.positions)
        × (text_in batch after.processed_batch_hashes ≡ text_in batch before.processed_batch_hashes)
  unfolding replay_account_refresh account_refreshed
  refresh_conserves before after s id batch (account, positions) done =
      let (_, checked, d1) = bind-ok (check_refresh before s) _ done in
      let (orders, _, d2) = bind-ok (refresh_orders s.as_of before.orders) _ d1 in
      let (xs, again, d3) = bind-ok (refresh_positions s.as_of before.positions) _ d2 in
      let (state, built, d4) =
        bind-ok (build_account (account_refreshed before s orders xs)) _ d3 in
      let (_, _, d5) = bind-ok (validate_refresh_snapshot s state) _ d4 in
      let same = ok_injective state after d5 in
      let whole : build_account (account_refreshed before s orders xs) ≡ ok after =
        built ∙ ap ok same in
      let (valid, shares) =
        refresh_positions-shares id s.as_of before.positions xs positions again in
      let (sound, cash, kept) =
        build_account-shares id (account_refreshed before s orders xs) after valid whole in
      let (_, _, _, _, _, time, batches) =
        build_account-inv (account_refreshed before s orders xs) after whole in
      (
        sound,
        omega (arith, check_refresh-newer before s checked, time),
        cash,
        kept ∙ shares,
        ap (text_in batch) batches ∙ text_in-sort_by batch before.processed_batch_hashes,
      )
