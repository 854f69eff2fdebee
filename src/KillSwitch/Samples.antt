-- ===== src/KillSwitch/Samples.antt =====
-- Concrete switches, requests and a concrete hash for the tests of the kill switch.
use Prim.Native.Char.{code}
use quant_agent.Prelude.{
  ℕ, zero, suc, all, arith, ◌+◌, ◌*◌, ◌/◌, ◌%◌, ◌≡◌, refl, String, true, is_sha256, some, List, [],
  ◌∷◌,
}
use quant_agent.Canonical.{
  Json, null, flag, int, decimal, instant, day, text, arr, obj, Items, nil, cons, Fields, end,
  field, Hashing,
}
use quant_agent.KillSwitch.Contracts.{
  account, manual, human, system, risk_admin, system_role, KillSwitchActor, KillSwitchIncident,
  KillSwitchActivationRequest, KillSwitchRecoveryApproval, KillSwitchRecoveryRequest,
  KillSwitchGateRequest,
}

abbrev text_weight : String → ℕ
text_weight String.[] = 0
text_weight (String.◌∷◌ c s) = (code c + 41 * text_weight s) % 65521

mutual
  weight : Json → ℕ
  weight null = 0
  weight (flag b) = 1
  weight (int n) = n
  weight (decimal d) = 1
  weight (instant n) = n
  weight (day n) = n
  weight (text s) = text_weight s
  weight (arr xs) = weight_items xs
  weight (obj fs) = weight_fields fs

  weight_items : Items → ℕ
  weight_items nil = 0
  weight_items (cons x xs) = weight x + weight_items xs

  weight_fields : Fields → ℕ
  weight_fields end = 0
  weight_fields (field k v fs) = (weight v + 41 * weight_fields fs) % 65521

abbrev digests : List String
digests =
    "0000000000000000000000000000000000000000000000000000000000000000"
    ∷ "1111111111111111111111111111111111111111111111111111111111111111"
    ∷ "2222222222222222222222222222222222222222222222222222222222222222"
    ∷ "3333333333333333333333333333333333333333333333333333333333333333"
    ∷ "4444444444444444444444444444444444444444444444444444444444444444"
    ∷ "5555555555555555555555555555555555555555555555555555555555555555"
    ∷ "6666666666666666666666666666666666666666666666666666666666666666"
    ∷ "7777777777777777777777777777777777777777777777777777777777777777"
    ∷ "8888888888888888888888888888888888888888888888888888888888888888"
    ∷ "9999999999999999999999999999999999999999999999999999999999999999"
    ∷ "aaaaaaaaaaaaaaaaaaaaaaaaaaaaaaaaaaaaaaaaaaaaaaaaaaaaaaaaaaaaaaaa"
    ∷ "bbbbbbbbbbbbbbbbbbbbbbbbbbbbbbbbbbbbbbbbbbbbbbbbbbbbbbbbbbbbbbbb"
    ∷ "cccccccccccccccccccccccccccccccccccccccccccccccccccccccccccccccc"
    ∷ "dddddddddddddddddddddddddddddddddddddddddddddddddddddddddddddddd"
    ∷ "eeeeeeeeeeeeeeeeeeeeeeeeeeeeeeeeeeeeeeeeeeeeeeeeeeeeeeeeeeeeeeee"
    ∷ "ffffffffffffffffffffffffffffffffffffffffffffffffffffffffffffffff" ∷ []

abbrev pick : ℕ → List String → String
pick n [] = "ffffffffffffffffffffffffffffffffffffffffffffffffffffffffffffffff"
pick zero (x ∷ xs) = x
pick (suc n) (x ∷ xs) = pick n xs

unfoldable pub digest_of : ℕ → String
digest_of n = pick n digests

pick-is_sha256 : (n : ℕ) (xs : List String) → all is_sha256 xs ≡ true → is_sha256 (pick n xs) ≡ true
unfolding is_sha256
pick-is_sha256 n [] h = refl
pick-is_sha256 zero (x ∷ xs) h = ground arith
pick-is_sha256 (suc n) (x ∷ xs) h = pick-is_sha256 n xs (ground arith)

unfoldable pub spread_hash : Json → String
unfolding weight weight_items weight_fields digest_of
spread_hash j = digest_of (weight j / 3 % 16)

pub spread_digest : (j : Json) → is_sha256 (spread_hash j) ≡ true
unfolding spread_hash digest_of is_sha256
spread_digest j = pick-is_sha256 (weight j / 3 % 16) digests refl

instance abbrev pub spread_hashing : Hashing
spread_hashing = record { stable_hash = spread_hash; digest = spread_digest }

abbrev pub admin : KillSwitchActor
admin = record { actor_id = "admin"; kind = human; role = risk_admin; actor_hash = digest_of 1 }

abbrev pub machine : KillSwitchActor
machine = record { actor_id = "gate"; kind = system; role = system_role; actor_hash = digest_of 2 }

abbrev pub incident : KillSwitchIncident
incident = record {
  schema_version = "1";
  incident_id = "kill-incident:1";
  scope = account;
  account_id = some "acc";
  trigger_source = manual;
  reason_codes = "MANUAL_STOP" ∷ [];
  evidence_hashes = digest_of 3 ∷ [];
  source_reference_hash = digest_of 3;
  summary = "stop";
  triggered_at = 20;
  incident_hash = digest_of 4;
}

abbrev pub activation : KillSwitchActivationRequest
activation = record {
  schema_version = "1";
  request_id = "req-1";
  idempotency_key = "activate-1";
  incident = incident;
  actor = admin;
  requested_at = 21;
  request_hash = digest_of 5;
}

abbrev pub order : ℕ → KillSwitchGateRequest
order at = record {
  schema_version = "1";
  request_id = "order-1";
  account_id = "acc";
  idempotency_key = "order-1";
  batch_hash = digest_of 6;
  source_request_hash = digest_of 7;
  checked_at = at;
  request_hash = digest_of 8;
}

-- An approval of the recovery of a state with some hash.
abbrev pub approval : String → KillSwitchRecoveryApproval
approval state_hash = record {
  schema_version = "1";
  approval_id = "approval-1";
  scope = account;
  account_id = some "acc";
  expected_state_hash = state_hash;
  expected_revision = 1;
  expected_latest_incident_hash = digest_of 4;
  approver = admin;
  approved_at = 30;
  expires_at = 90;
  approval_hash = digest_of 9;
}

abbrev pub recovery : String → String → KillSwitchRecoveryRequest
recovery state_hash key = record {
  schema_version = "1";
  request_id = "req-2";
  idempotency_key = key;
  approval = approval state_hash;
  actor = admin;
  requested_at = 31;
  request_hash = digest_of 10;
}
