-- ===== src/KillSwitch/Store.antt =====
-- The fields of `InMemoryKillSwitchRepository` (packages/quant_agent/risk/kill_switch/repository.py),
-- the keys of its dictionaries, and its methods as actions: what was written before a raise stays
-- written.
use quant_agent.Prelude.{
  ℕ, ◌≡◌, refl, String, Bool, true, false, ◌&&◌, Option, none, some, List, [], arith, Result, ok,
  err, opt_beq, opt_beq-eq, ◌=s=◌, beq_refl as text_refl, eq_iff,
}
use quant_agent.Dict.{Key, Dict}
use quant_agent.KillSwitch.Contracts.{
  KillSwitchScope, KillSwitchIncident, KillSwitchState, KillSwitchAuditEvent, KillSwitchTransition,
  KillSwitchGateDecision, KillSwitchError, scope_beq,
}

abbrev pub StateKey : Type 0
StateKey = KillSwitchScope × Option String

abbrev pub OperationKey : Type 0
OperationKey = KillSwitchScope × Option String × String

abbrev pub GateKey : Type 0
GateKey = String × String

unfoldable pub state_key_beq : StateKey → StateKey → Bool
unfolding scope_beq
state_key_beq (s, a) (t, b) = scope_beq s t && opt_beq a b

unfoldable pub operation_key_beq : OperationKey → OperationKey → Bool
unfolding scope_beq
operation_key_beq (s, a, k) (t, b, j) = scope_beq s t && opt_beq a b && (k =s= j)

unfoldable pub gate_key_beq : GateKey → GateKey → Bool
gate_key_beq (a, k) (b, j) = (a =s= b) && (k =s= j)

pub opt_beq_refl : (a : Option String) → opt_beq a a ≡ true
opt_beq_refl none = refl
opt_beq_refl (some s) = text_refl s

pub state_key_refl : (k : StateKey) → state_key_beq k k ≡ true
unfolding state_key_beq
state_key_refl (s, a) = ground (arith, opt_beq_refl a)

pub state_key-eq : (j k : StateKey) → state_key_beq j k ≡ true → j ≡ k
unfolding state_key_beq
state_key-eq (s, a) (t, b) h = ground (arith, opt_beq-eq a b)

pub operation_key_refl : (k : OperationKey) → operation_key_beq k k ≡ true
unfolding operation_key_beq
operation_key_refl (s, a, k) = ground (arith, opt_beq_refl a, text_refl k)

pub operation_key-eq : (j k : OperationKey) → operation_key_beq j k ≡ true → j ≡ k
unfolding operation_key_beq
operation_key-eq (s, a, k) (t, b, j) h = ground (arith, opt_beq-eq a b, eq_iff k j)

pub gate_key_refl : (k : GateKey) → gate_key_beq k k ≡ true
unfolding gate_key_beq
gate_key_refl (a, k) = ground (arith, text_refl a, text_refl k)

pub gate_key-eq : (j k : GateKey) → gate_key_beq j k ≡ true → j ≡ k
unfolding gate_key_beq
gate_key-eq (a, k) (b, j) h = ground (arith, eq_iff a b, eq_iff k j)

pub text-eq : (a b : String) → (a =s= b) ≡ true → a ≡ b
text-eq a b h = (eq_iff a b).0 h

instance unfoldable pub state_key_laws : Key StateKey
unfolding state_key_beq
state_key_laws = record { beq = state_key_beq; beq_refl = state_key_refl; beq-eq = state_key-eq }

instance unfoldable pub operation_key_laws : Key OperationKey
unfolding operation_key_beq
operation_key_laws = record {
  beq = operation_key_beq;
  beq_refl = operation_key_refl;
  beq-eq = operation_key-eq;
}

instance unfoldable pub gate_key_laws : Key GateKey
unfolding gate_key_beq
gate_key_laws = record { beq = gate_key_beq; beq_refl = gate_key_refl; beq-eq = gate_key-eq }

instance unfoldable pub text_key_laws : Key String
text_key_laws = record { beq = ◌=s=◌; beq_refl = text_refl; beq-eq = text-eq }

-- The lock has no field: each action runs whole, and a guard is entered and left by actions.
pub record Repository : Type 0 where
  pub active_order_guards : ℕ
  pub states : Dict StateKey KillSwitchState
  pub incidents : Dict String KillSwitchIncident
  pub events : List KillSwitchAuditEvent
  pub events_by_hash : Dict String KillSwitchAuditEvent
  pub events_by_id : Dict String KillSwitchAuditEvent
  pub latest_event_hashes : Dict StateKey String
  pub operations : Dict OperationKey (String × KillSwitchTransition)
  pub gate_requests : Dict GateKey String
  pub blocked_gate_decisions : Dict GateKey KillSwitchGateDecision

-- `InMemoryKillSwitchRepository.__init__`
unfoldable pub empty_repository : Repository
empty_repository = record {
  active_order_guards = 0;
  states = [];
  incidents = [];
  events = [];
  events_by_hash = [];
  events_by_id = [];
  latest_event_hashes = [];
  operations = [];
  gate_requests = [];
  blocked_gate_decisions = [];
}

abbrev pub Action : Type 0 → Type 0
Action A = Repository → Result KillSwitchError A × Repository

module _ {A : Type 0} where
  abbrev pub return : A → Action A
  return a r = (ok a, r)

  abbrev pub raise : KillSwitchError → Action A
  raise e r = (err e, r)

  abbrev pub lift : Result KillSwitchError A → Action A
  lift m r = (m, r)

  abbrev pub gets : (Repository → A) → Action A
  gets f r = (ok (f r), r)

abbrev pub modify : (Repository → Repository) → Action (Unit {0})
modify f r = (ok tt, f r)

abbrev pub raise_when : Bool → KillSwitchError → Action (Unit {0})
raise_when true e r = (err e, r)
raise_when false e r = (ok tt, r)

abbrev pub continue :
    {A B : Type 0}
    → (A → Action B)
    → Result KillSwitchError A × Repository
    → Result KillSwitchError B × Repository
continue rest (ok a, r) = rest a r
continue rest (err e, r) = (err e, r)

infixl 5 ◌>>=◌ ◌>>◌
abbrev pub ◌>>=◌ : {A B : Type 0} → Action A → (A → Action B) → Action B
◌>>=◌ m rest r = continue rest (m r)

abbrev pub ◌>>◌ : {A B : Type 0} → Action A → Action B → Action B
m >> rest = m >>= λ _. rest

-- A read of the fields that may raise.
abbrev pub reads : {A : Type 0} → (Repository → Result KillSwitchError A) → Action A
reads f r = (f r, r)
