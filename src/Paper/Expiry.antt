-- ===== src/Paper/Expiry.antt =====
-- The expiry of an order never fails, and gives its holds back.
use quant_agent.Prelude.{
  ℕ, ◌-◌, ◌≡◌, ◌⊎◌, refl, sym, ap, ◌∙◌, inl, inr, Bool-cases, true, false, not, ◌&&◌, if◌then◌else◌,
  ok, leb, ltb, ◌==◌, pos, ltb_ℤ, arith, passed-ok, checked-ok, eq_iff, is_sha256,
}
use quant_agent.Canonical.{Hashing, stable_hash}
use quant_agent.Paper.Contracts.{
  Side, buy, sell, value_error, PaperOrderStatus, accepted, partially_filled, filled, canceled,
  expired, rejected, is_active,
}
use quant_agent.Paper.Orders.{
  PaperOrder, order_payload, unnamed, stripped, valid_terms, valid_status, valid_holds, valid_order,
  make_order, build_order, expire_order,
}

-- An order that passed its constructor.
abbrev pub IsOrder : ⦃h : Hashing⦄ → PaperOrder → Type 0
IsOrder o = make_order o ≡ ok o

pub record OrderFacts ⦃h : Hashing⦄ (o : PaperOrder) : Type 0 where
  pub named : unnamed o ≡ false
  pub normal : stripped o ≡ o
  pub valid : valid_order o ≡ true

pub IsOrder-facts : ⦃h : Hashing⦄ (o : PaperOrder) → IsOrder o → OrderFacts o
unfolding make_order
IsOrder-facts o made =
    let (named, rest) = passed-ok (unnamed o) value_error _ o made in
    let (valid, same) =
      checked-ok (not (valid_order (stripped o))) value_error (stripped o) o rest in
    let passed : valid_order (stripped o) ≡ true = ground arith in
    record { named = named; normal = same; valid = sym (ap (λ x. valid_order x) same) ∙ passed }

-- The order that an active order becomes when it expires.
unfoldable pub expired_form : ⦃h : Hashing⦄ → PaperOrder → PaperOrder
unfolding order_payload
expired_form o =
    let whole = record o {
      status = expired;
      cash_reserved = pos 0;
      sell_reserved_quantity = 0;
      remaining_quantity = o.quantity - o.filled_quantity;
    } in
    record whole { order_hash = stable_hash (order_payload whole) }

-- An active order is not filled.
active_open :
    (s : PaperOrderStatus) (quantity done remaining : ℕ)
    → is_active s ≡ true
    → ltb 0 quantity ≡ true
    → valid_status s quantity done remaining ≡ true
    → ((quantity - done) == 0) ≡ false
unfolding is_active valid_status
active_open accepted quantity done remaining active some h = ground arith
active_open partially_filled quantity done remaining active some h = ground arith
active_open filled quantity done remaining active some h = cc
active_open canceled quantity done remaining active some h = cc
active_open expired quantity done remaining active some h = cc
active_open rejected quantity done remaining active some h = cc

valid_order-parts :
    ⦃h : Hashing⦄ (o : PaperOrder)
    → valid_order o ≡ true
    → (valid_terms o ≡ true)
      × (valid_status o.status o.quantity o.filled_quantity o.remaining_quantity ≡ true)
unfolding valid_order
valid_order-parts o valid = ground arith

valid_terms-quantity : (o : PaperOrder) → valid_terms o ≡ true → ltb 0 o.quantity ≡ true
unfolding valid_terms
valid_terms-quantity o valid = ground arith

equal_itself : (n : ℕ) → (n == n) ≡ true
equal_itself n = ground arith

expired_form-terms : ⦃h : Hashing⦄ (o : PaperOrder) → valid_terms (expired_form o) ≡ valid_terms o
unfolding valid_terms expired_form
expired_form-terms o = refl

no_holds : (s : Side) (remaining : ℕ) → valid_holds s false (pos 0) 0 remaining ≡ true
unfolding valid_holds
no_holds buy remaining = refl
no_holds sell remaining = refl

valid_order_intro :
    ⦃h : Hashing⦄ (o : PaperOrder)
    → valid_terms o ≡ true
    → is_sha256 o.order_hash ≡ true
    → ltb_ℤ o.cash_reserved (pos 0) ≡ false
    → (o.remaining_quantity == o.quantity - o.filled_quantity) ≡ true
    → valid_status o.status o.quantity o.filled_quantity o.remaining_quantity ≡ true
    → valid_holds o.side
        (is_active o.status)
        o.cash_reserved
        o.sell_reserved_quantity
        o.remaining_quantity
      ≡ true
    → o.order_hash ≡ stable_hash (order_payload o)
    → valid_order o ≡ true
unfolding valid_order
valid_order_intro o terms digest cash remaining status holds own =
    rw (terms, digest, cash, remaining, status, holds) ((eq_iff o.order_hash _).1 own)

expired_form-valid :
    ⦃h : Hashing⦄ (o : PaperOrder)
    → valid_order o ≡ true
    → is_active o.status ≡ true
    → valid_order (expired_form o) ≡ true
unfolding expired_form is_active valid_status
expired_form-valid ⦃h⦄ o valid active =
    let (terms, status) = valid_order-parts o valid in
    let some = valid_terms-quantity o terms in
    let open_quantity : not ((o.quantity - o.filled_quantity) == 0) ≡ true =
      ap not (
        active_open o.status o.quantity o.filled_quantity o.remaining_quantity active some
          status) in
    valid_order_intro (expired_form o) (expired_form-terms o ∙ terms) (h.digest _) refl
      (equal_itself (o.quantity - o.filled_quantity)) open_quantity
      (no_holds o.side (o.quantity - o.filled_quantity)) refl

make_order-expired_form :
    ⦃h : Hashing⦄ (o : PaperOrder)
    → OrderFacts o
    → is_active o.status ≡ true
    → make_order (expired_form o) ≡ ok (expired_form o)
unfolding make_order expired_form unnamed stripped
make_order-expired_form o facts active =
    let same : stripped (expired_form o) ≡ expired_form o =
      ap {A = PaperOrder}
        (λ x. record x {
          status = expired;
          cash_reserved = pos 0;
          sell_reserved_quantity = 0;
          remaining_quantity = o.quantity - o.filled_quantity;
          order_hash = (expired_form o).order_hash;
        })
        facts.normal in
    rw (facts.named, same) (rw (expired_form-valid o facts.valid active) refl)

expiry_exact :
    ⦃h : Hashing⦄ (o : PaperOrder) (as_of : ℕ)
    → IsOrder o
    → expire_order o as_of
      ≡ ok (if is_active o.status && leb o.expires_at as_of then expired_form o else o)
unfolding expire_order build_order expired_form
expiry_exact o as_of order = elim (Bool-cases (is_active o.status)) [
  | inr inactive ↦ rw inactive refl
  | inl active ↦
      let made = make_order-expired_form o (IsOrder-facts o order) active in
      rw active (rw made (ground arith))
]

-- The expiry of an order that passed its constructor returns an order that passes it too, with the
-- same quantity and fills. It is the same order if that was not active or has not come to its
-- expiry; otherwise it is expired and holds neither cash nor shares.
pub expiry_releases_holds :
    ⦃h : Hashing⦄ (o : PaperOrder) (as_of : ℕ)
    → IsOrder o
    → (after : PaperOrder) × (expire_order o as_of ≡ ok after)
      × IsOrder after
      × (after.quantity ≡ o.quantity)
      × (after.filled_quantity ≡ o.filled_quantity)
      × (((is_active o.status && leb o.expires_at as_of ≡ false) × (after ≡ o))
          ⊎ ((is_active o.status && leb o.expires_at as_of ≡ true)
              × (after.status ≡ expired)
              × (after.cash_reserved ≡ pos 0)
              × (after.sell_reserved_quantity ≡ 0)))
unfolding expired_form
expiry_releases_holds o as_of order =
    elim (Bool-cases (is_active o.status && leb o.expires_at as_of)) [
      | inr stays ↦
          (o, expiry_exact o as_of order ∙ rw stays refl, order, refl, refl, inl (stays, refl))
      | inl over ↦
          let active : is_active o.status ≡ true = ground arith in
          (
            expired_form o,
            expiry_exact o as_of order ∙ rw over refl,
            make_order-expired_form o (IsOrder-facts o order) active,
            refl,
            refl,
            inr (over, refl, refl, refl),
          )
    ]
