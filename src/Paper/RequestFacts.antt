-- ===== src/Paper/RequestFacts.antt =====
-- The constructor of a request at its own results.
use mathlib.Core.Path.{subst}
use quant_agent.Prelude.{
  Bool, true, false, not, ◌||◌, ◌≡◌, refl, ok, is_blank, strip, strip_idem, is_blank-strip, eq_iff,
  arith, passed-ok, ok_injective, unnegated,
}
use quant_agent.Canonical.{Hashing, stable_hash}
use quant_agent.Paper.Contracts.{value_error}
use quant_agent.Paper.Requests.{
  config_hash, PaperExecutionRequest, request_payload, valid_request, make_request,
}

abbrev unnamed_request : PaperExecutionRequest → Bool
unnamed_request q =
    is_blank q.request_id
    || is_blank q.idempotency_key
    || is_blank q.account_id
    || is_blank q.config_version

abbrev normal : PaperExecutionRequest → PaperExecutionRequest
normal q = record q {
  request_id = strip q.request_id;
  idempotency_key = strip q.idempotency_key;
  account_id = strip q.account_id;
  config_version = strip q.config_version;
}

normal_named : (q : PaperExecutionRequest) → unnamed_request (normal q) ≡ unnamed_request q
normal_named q =
    rw
      (
        is_blank-strip q.request_id,
        is_blank-strip q.idempotency_key,
        is_blank-strip q.account_id,
        is_blank-strip q.config_version,
      )
      refl

normal_idem : (q : PaperExecutionRequest) → normal (normal q) ≡ normal q
normal_idem q =
    rw
      (
        strip_idem q.request_id,
        strip_idem q.idempotency_key,
        strip_idem q.account_id,
        strip_idem q.config_version,
      )
      refl

module _ ⦃h : Hashing⦄ where
  make_normal :
      (q : PaperExecutionRequest)
      → unnamed_request q ≡ false
      → valid_request (normal q) ≡ true
      → make_request (normal q) ≡ ok (normal q)
  unfolding make_request
  make_normal q named valid = rw (normal_named q, named, normal_idem q, valid) refl

  valid_request-hashes :
      (q : PaperExecutionRequest)
      → valid_request q ≡ true
      → (q.request_hash ≡ stable_hash (request_payload q))
        × (q.config_hash
            ≡ config_hash (record {
              version = q.config_version;
              allow_partial = q.allow_partial;
              max_market_state_age_seconds = q.max_market_state_age_seconds;
            }))
  unfolding valid_request
  valid_request-hashes q valid = (
    ground (arith, eq_iff q.request_hash (stable_hash (request_payload q))),
    ground (
      arith,
      eq_iff q.config_hash (
          config_hash (record {
            version = q.config_version;
            allow_partial = q.allow_partial;
            max_market_state_age_seconds = q.max_market_state_age_seconds;
          })),
    ),
  )

  -- A request that the constructor returned is returned unchanged when it is constructed again from
  -- its own fields; its request hash is the hash of its content, and its configuration hash that of
  -- the configuration that it names.
  pub make_request_idem :
      (q made : PaperExecutionRequest)
      → make_request q ≡ ok made
      → (make_request made ≡ ok made)
        × (made.request_hash ≡ stable_hash (request_payload made))
        × (made.config_hash
            ≡ config_hash (record {
              version = made.config_version;
              allow_partial = made.allow_partial;
              max_market_state_age_seconds = made.max_market_state_age_seconds;
            }))
  unfolding make_request
  make_request_idem q made done =
      let (named, d1) = passed-ok (unnamed_request q) value_error _ made done in
      let (checked, d2) = passed-ok (not (valid_request (normal q))) value_error _ made d1 in
      let valid = unnegated (valid_request (normal q)) checked in
      let same = ok_injective (normal q) made d2 in
      let (content, named_config) =
        valid_request-hashes made (subst (λ n. valid_request n ≡ true) same valid) in
      (subst (λ n. make_request n ≡ ok n) same (make_normal q named valid), content, named_config)
