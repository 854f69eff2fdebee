-- ===== src/KillSwitch/Orders.antt =====
-- New orders under the kill switch: `guard_new_order` of packages/quant_agent/risk/kill_switch/
-- repository.py over any history of the repository.
use quant_agent.Prelude.{
  ℕ, ◌≡◌, ◌≤◌, refl, sym, ap, ◌∙◌, String, false, ◌||◌, Option, none, some, [], ok, inl, inr, arith,
  ltb, lt→ltb, beq_refl, ◌+◌,
}
use mathlib.Core.Path.{subst}
use quant_agent.Canonical.{Hashing}
use quant_agent.Dict.{get, get-put_self}
use quant_agent.KillSwitch.Contracts.{
  KillSwitchActor, KillSwitchState, KillSwitchGateRequest, KillSwitchGateDecision, global, account,
  inactive, allowed, blocked,
}
use quant_agent.KillSwitch.Payloads.{gate_operation}
use quant_agent.KillSwitch.Builders.{gate_operation_hash}
use quant_agent.KillSwitch.Store.{
  state_key_laws, operation_key_laws, gate_key_laws, text_key_laws, Repository,
}
use quant_agent.KillSwitch.Plans.{gate_key}
use quant_agent.KillSwitch.Guard.{
  store_block, open_guard, when_active, blocking_states, check_gate_content, enter_guard,
}
use quant_agent.KillSwitch.Outcomes.{Outcome}
use quant_agent.KillSwitch.GuardOutcomes.{enter_guard-Guarded, Judged, Guarded}
use quant_agent.KillSwitch.GuardOutcomes.{
  failed, refused, admitted, stopped, conflicting, repeated, judged,
}
use quant_agent.KillSwitch.Keeps.{Runs-Extends, check_gate_content-ok}
use quant_agent.KillSwitch.Gate.{IsBlockStore, Reachable-IsBlockStore}
use quant_agent.KillSwitch.Steps.{Runs, Reachable}

module _ ⦃h : Hashing⦄ where
  -- Both switches are there, inactive, and not newer than the check of the order.
  pub IsClear : KillSwitchGateRequest → Repository → Type 0
  IsClear request r =
      (g : KillSwitchState) × (a : KillSwitchState) × (get (global, none) r.states ≡ some g)
      × (get (account, some request.account_id) r.states ≡ some a)
      × (g.status ≡ inactive)
      × (a.status ≡ inactive)
      × (g.changed_at ≤ request.checked_at)
      × (a.changed_at ≤ request.checked_at)

  none_blocking :
      (g a : KillSwitchState)
      → blocking_states g a ≡ []
      → (g.status ≡ inactive) × (a.status ≡ inactive)
  unfolding blocking_states when_active
  none_blocking g a clear = ground arith

  not_late : (m n t : ℕ) → (ltb t m || ltb t n) ≡ false → (m ≤ t) × (n ≤ t)
  not_late m n t fresh = ground (arith, lt→ltb t m, lt→ltb t n)

  admitted_order_lem :
      (request : KillSwitchGateRequest) (r : Repository) (out : Outcome KillSwitchGateDecision)
      (d : KillSwitchGateDecision)
      → Judged request r out
      → out.0 ≡ ok d
      → d.status ≡ allowed
      → IsClear request r × (out.1 ≡ open_guard request r)
  unfolding IsClear
  admitted_order_lem request r _ d (failed e) same let_through = cc
  admitted_order_lem request r _ d (refused x status) same let_through = cc
  admitted_order_lem request r _ d (stopped x event chain status _ _) same let_through = cc
  admitted_order_lem request r _ d (admitted g a x is_g is_a fresh clear status) same let_through =
      let (g_off, a_off) = none_blocking g a clear in
      let (g_old, a_old) = not_late g.changed_at a.changed_at request.checked_at fresh in
      ((g, a, is_g, is_a, g_off, a_off, g_old, a_old), refl)

  -- In any history from an empty repository, an order that `guard_new_order` lets through finds
  -- the global switch and the switch of its account stored, inactive and not newer than the time
  -- of the check; and its guard is held when the caller goes on.
  pub allowed_order-IsClear :
      (request : KillSwitchGateRequest) (actor : KillSwitchActor) (r s : Repository)
      (d : KillSwitchGateDecision)
      → Reachable r
      → enter_guard request actor r ≡ (ok d, s)
      → d.status ≡ allowed
      → IsClear request r × (s.active_order_guards ≡ r.active_order_guards + 1)
  unfolding open_guard IsBlockStore
  allowed_order-IsClear request actor r s d reached entered let_through =
      let outcome = enter_guard-Guarded request actor r in
      go (enter_guard request actor r) outcome entered
    where
      other_status :
          (x : KillSwitchGateDecision)
          → x.status ≡ blocked
          → Path (Outcome KillSwitchGateDecision) (ok x, r) (ok d, s)
          → ⊥
      other_status x status same = cc

      go :
          (out : Outcome KillSwitchGateDecision)
          → Guarded request r out
          → out ≡ (ok d, s)
          → IsClear request r × (s.active_order_guards ≡ r.active_order_guards + 1)
      go _ (conflicting e) same = cc
      go _ (repeated x _ stored) same =
          let (_, status, _) = Reachable-IsBlockStore r reached (gate_key request) x stored in
          absurd (other_status x status same)
      go out (judged _ _ _ rest) same =
          let (clear, end) =
            admitted_order_lem request r out d rest (ap (λ o. o.0) same) let_through in
          (
            clear,
            ap (λ o. o.1.active_order_guards) (sym same) ∙ ap (λ x. x.active_order_guards) end,
          )

  same_request :
      (hash : String) (stored : Option String)
      → stored ≡ some hash
      → check_gate_content hash stored ≡ ok tt
  unfolding check_gate_content
  same_request hash stored at = rw (at, beq_refl hash) refl

  repeated_guard :
      (request : KillSwitchGateRequest) (actor : KillSwitchActor) (r : Repository)
      (d : KillSwitchGateDecision)
      → check_gate_content (gate_operation_hash request) (get (gate_key request) r.gate_requests)
        ≡ ok tt
      → get (gate_key request) r.blocked_gate_decisions ≡ some d
      → enter_guard request actor r ≡ (ok d, r)
  unfolding enter_guard
  repeated_guard request actor r d same stored = rw (same, stored) refl

  abbrev IsStored : KillSwitchGateRequest → KillSwitchGateDecision → Repository → Type 0
  IsStored request d r =
      (get (gate_key request) r.blocked_gate_decisions ≡ some d)
      × (get (gate_key request) r.gate_requests ≡ some (gate_operation_hash request))

  store_block-IsStored :
      (request : KillSwitchGateRequest) (d : KillSwitchGateDecision) (r : Repository)
      → IsStored request d (store_block request d r)
  unfolding store_block
  store_block-IsStored request d r = (
    get-put_self (gate_key request) d r.blocked_gate_decisions,
    get-put_self (gate_key request) (gate_operation_hash request) r.gate_requests,
  )

  Judged-IsStored :
      (request : KillSwitchGateRequest) (r : Repository) (out : Outcome KillSwitchGateDecision)
      (d : KillSwitchGateDecision)
      → Judged request r out
      → out.0 ≡ ok d
      → d.status ≡ blocked
      → IsStored request d out.1
  Judged-IsStored request r _ d (failed e) same status = cc
  Judged-IsStored request r _ d (admitted g a x _ _ _ _ through) same status = cc
  Judged-IsStored request r _ d (refused x _) same status =
      let here : x ≡ d = cc in rw (← here) (store_block-IsStored request x r)
  Judged-IsStored request r _ d (stopped x event chain _ _ _) same status =
      let here : x ≡ d = cc in rw (← here) (store_block-IsStored request x _)

  repeated_block :
      (request : KillSwitchGateRequest) (r : Repository) (d : KillSwitchGateDecision)
      → IsBlockStore r
      → check_gate_content (gate_operation_hash request) (get (gate_key request) r.gate_requests)
        ≡ ok tt
      → get (gate_key request) r.blocked_gate_decisions ≡ some d
      → IsStored request d r
  unfolding IsBlockStore
  repeated_block request r d inv same stored =
      let (hash, _, at) = inv (gate_key request) d stored in
      elim (check_gate_content-ok (gate_operation_hash request) _ same) [
        | inl absent ↦ absurd (none_some (get (gate_key request) r.gate_requests) hash absent at)
        | inr present ↦ (stored, present)
      ]
    where
      none_some : (o : Option String) (x : String) → o ≡ none → o ≡ some x → ⊥
      none_some o x p q = cc

  blocked_order_IsStored :
      (request : KillSwitchGateRequest) (r : Repository) (out : Outcome KillSwitchGateDecision)
      (d : KillSwitchGateDecision)
      → IsBlockStore r
      → Guarded request r out
      → out.0 ≡ ok d
      → d.status ≡ blocked
      → IsStored request d out.1
  blocked_order_IsStored request r _ d inv (conflicting e) returned status = cc
  blocked_order_IsStored request r _ d inv (repeated x same stored) returned status =
      let here : x ≡ d = cc in repeated_block request r d inv same (rw (← here) stored)
  blocked_order_IsStored request r out d inv (judged _ _ _ rest) returned status =
      Judged-IsStored request r out d rest returned status

  -- The same order, checked at another time.
  abbrev pub retry : KillSwitchGateRequest → ℕ → String → KillSwitchGateRequest
  retry request checked_at request_hash = record request {
    checked_at = checked_at;
    request_hash = request_hash;
  }

  retry_hash :
      (request : KillSwitchGateRequest) (checked_at : ℕ) (request_hash : String)
      → gate_operation_hash (retry request checked_at request_hash) ≡ gate_operation_hash request
  unfolding gate_operation_hash gate_operation
  retry_hash request checked_at request_hash = refl

  retry_key :
      (request : KillSwitchGateRequest) (checked_at : ℕ) (request_hash : String)
      → gate_key (retry request checked_at request_hash) ≡ gate_key request
  retry_key request checked_at request_hash = refl

  -- In any history from an empty repository, once `guard_new_order` has blocked an order, the same
  -- order is answered with that same decision and nothing is written, whatever calls come between
  -- the two, whoever asks, and whatever the time of the check and the request hash over it are
  -- then: a recovery of the switch does not let it through.
  pub blocked_order_stays :
      (request : KillSwitchGateRequest) (actor later : KillSwitchActor) (checked_at : ℕ)
      (request_hash : String) (r s t : Repository) (d : KillSwitchGateDecision)
      → Reachable r
      → enter_guard request actor r ≡ (ok d, s)
      → d.status ≡ blocked
      → Runs s t
      → enter_guard (retry request checked_at request_hash) later t ≡ (ok d, t)
  blocked_order_stays request actor later checked_at request_hash r s t d reached entered status
        runs =
      let guarded = subst (Guarded request r) entered (enter_guard-Guarded request actor r) in
      let (stored, asked) =
        blocked_order_IsStored request r (ok d, s) d (Reachable-IsBlockStore r reached) guarded refl
          status in
      let kept = Runs-Extends s t runs in
      let again = retry request checked_at request_hash in
      let key = retry_key request checked_at request_hash in
      repeated_guard again later t d
        (same_request (gate_operation_hash again) _ (
          ap (λ k. get k t.gate_requests) key
          ∙ kept.gate_requests_kept (gate_key request) _ asked
          ∙ ap some (sym (retry_hash request checked_at request_hash))))
        (ap (λ k. get k t.blocked_gate_decisions) key
          ∙ kept.blocked_kept (gate_key request) d stored)
