-- ===== src/Paper/Refreshes.antt =====
-- What a refresh of an account does to a repository of packages/quant_agent/execution/paper/
-- repository.py.
use quant_agent.Prelude.{
  String, refl, Bool, true, false, not, ◌≡◌, sym, ap, ◌∙◌, ◌⊎◌, inl, inr, Option, none, some,
  Result, ok, err, ◌=s=◌, if◌then◌else◌, eq_iff, beq_refl, bind-ok, passed-ok, ok_injective,
  unnegated,
}
use quant_agent.Canonical.{Hashing}
use quant_agent.Dict.{get}
use quant_agent.Paper.Contracts.{Platform}
use quant_agent.Paper.Accounts.{PaperAccountState}
use quant_agent.Paper.Equality.{account_beq, account_beq-eq, account_beq_refl}
use quant_agent.Paper.Transition.{name_key}
use quant_agent.Paper.Refresh.{AccountSnapshot, replay_account_refresh}
use quant_agent.Paper.Repository.{
  PaperRepositoryError, account_conflict, concurrent_update, PaperRepository, pair_key, found,
  as_conflict, store_refresh, refresh_stored, refresh_account,
}
use quant_agent.Paper.Commits.{pair_injective, as_conflict-ok, found-some}

pub same_repository :
    (r r' : PaperRepository) (state stored : PaperAccountState) (same : Bool)
    → ◌≡◌ {A = Result PaperRepositoryError (PaperRepository × PaperAccountState)}
        (if◌then◌else◌ {A = Result PaperRepositoryError (PaperRepository × PaperAccountState)} same
          (ok (r, state))
          (err account_conflict))
        (ok (r', stored))
    → r' ≡ r
same_repository r r' state stored true done =
    ap (λ x. x.0) (sym (ok_injective (r, state) (r', stored) done))
same_repository r r' state stored false done = cc

-- A refresh that writes: the account is in the expected state, and gets what the refresh gives.
abbrev pub Refreshed :
    ⦃h : Hashing⦄ ⦃p : Platform⦄
    → PaperRepository
    → PaperRepository
    → String
    → AccountSnapshot
    → PaperAccountState
    → Type 0
Refreshed r r' expected s after =
    (r' ≡ store_refresh r s after)
    × ((current : PaperAccountState) × (get s.account_id r.accounts ≡ some current)
        × (current.state_hash ≡ expected)
        × (replay_account_refresh current s ≡ ok after))

module _ ⦃h : Hashing⦄ ⦃p : Platform⦄ (r r' : PaperRepository) (expected : String)
    (s : AccountSnapshot) (after given : PaperAccountState) where
  refresh_stored-inv :
      (existing : Option PaperAccountState)
      → refresh_stored r expected s after existing ≡ ok (r', given)
      → (r' ≡ r) ⊎ Refreshed r r' expected s after
  unfolding refresh_stored
  refresh_stored-inv (some existing) done =
      inl (same_repository r r' existing given (account_beq existing after) done)
  refresh_stored-inv none done =
      let (current, at, d1) = bind-ok (found (get s.account_id r.accounts)) _ done in
      let (token, d2) =
        passed-ok (not (current.state_hash =s= expected)) concurrent_update _ (r', given) d1 in
      let (state, replay, d3) = bind-ok (as_conflict (replay_account_refresh current s)) _ d2 in
      let (same, d4) =
        passed-ok (not (account_beq after state)) account_conflict _ (r', given) d3 in
      let (written, _) =
        pair_injective (store_refresh r s after) r' after given (ok_injective _ (r', given) d4) in
      inr (
        sym written,
        (
          current,
          found-some (get s.account_id r.accounts) current at,
          (eq_iff current.state_hash expected).0 (unnegated _ token),
          as_conflict-ok (replay_account_refresh current s) state replay
              ∙ ap ok (sym (account_beq-eq after state (unnegated _ same))),
        ),
      )

  -- A refresh that returns either changes nothing, or finds the account in the expected state and
  -- writes what the refresh of that state gives.
  pub refresh_account-inv :
      refresh_account r expected s after ≡ ok (r', given)
      → (r' ≡ r) ⊎ Refreshed r r' expected s after
  unfolding refresh_account
  refresh_account-inv done =
      refresh_stored-inv (get (s.account_id, s.content_hash) r.states_by_refresh) done

-- A refresh from a new snapshot, of an account in the expected state, goes through.
pub refresh_account-store_refresh :
    ⦃h : Hashing⦄ ⦃p : Platform⦄ (r : PaperRepository) (s : AccountSnapshot)
    (current after : PaperAccountState)
    → get (s.account_id, s.content_hash) r.states_by_refresh ≡ none
    → get s.account_id r.accounts ≡ some current
    → replay_account_refresh current s ≡ ok after
    → refresh_account r current.state_hash s after ≡ ok (store_refresh r s after, after)
unfolding refresh_account refresh_stored found as_conflict
refresh_account-store_refresh r s current after new at replay =
    rw (new, at, beq_refl current.state_hash, replay, account_beq_refl after) refl
