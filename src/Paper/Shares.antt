-- ===== src/Paper/Shares.antt =====
-- The shares of an instrument in the positions of an account, and in the lots that a replay takes
-- from them and builds positions of.
use Prim.Native.String.{compare as text_compare}
use Prim.Native.Nat.{Ordering}
use quant_agent.Prelude.{
  ℕ, ◌+◌, ◌≡◌, refl, ap, ◌∙◌, String, false, not, none, List, [], ◌∷◌, map, All, if◌then◌else◌,
  total, ok, ◌=s=◌, arith, passed-ok, checked-ok, strip, is_blank, IsStrict,
}
use quant_agent.Canonical.{Hashing}
use quant_agent.Dict.{Dict, get, put, get-put_ne}
use quant_agent.Paper.Contracts.{value_error, Platform, PaperPositionLot}
use quant_agent.Paper.Positions.{PaperPosition, valid_position, make_position}
use quant_agent.Paper.Transition.{name_key, lots_of, position_lots}
use quant_agent.Paper.LotFacts.{IsLot}
use quant_agent.Paper.Ledger.{
  ledger_shares, entry_shares, quantity_of, put-shares, put-IsEntry, IsEntry,
}

-- The shares of an instrument in positions.
abbrev pub position_shares : String → PaperPosition → ℕ
position_shares id x = if x.instrument_id =s= id then x.total_quantity else 0

abbrev pub account_shares : String → List PaperPosition → ℕ
account_shares id positions = total (position_shares id) positions

-- A position that passed its constructor, of lots that passed theirs.
abbrev pub IsPosition : ⦃h : Hashing⦄ ⦃p : Platform⦄ → PaperPosition → Type 0
IsPosition x = (make_position x ≡ ok x) × All IsLot x.lots

valid_position-total :
    ⦃h : Hashing⦄ ⦃p : Platform⦄ (x : PaperPosition)
    → not (valid_position x) ≡ false
    → x.total_quantity ≡ quantity_of x.lots
unfolding valid_position
valid_position-total x valid = ground arith

pub IsPosition-facts :
    ⦃h : Hashing⦄ ⦃p : Platform⦄ (x : PaperPosition)
    → make_position x ≡ ok x
    → (x.total_quantity ≡ quantity_of x.lots) × (strip x.instrument_id ≡ x.instrument_id)
unfolding make_position
IsPosition-facts x made =
    let normal : PaperPosition = record x { instrument_id = strip x.instrument_id } in
    let (named, rest) = passed-ok (is_blank x.instrument_id) value_error _ x made in
    let (valid, same) = checked-ok (not (valid_position normal)) value_error normal x rest in
    (valid_position-total normal valid, ap (λ y. y.instrument_id) same)

-- No position's name is a key yet.
abbrev pub IsFresh : Dict String (List PaperPositionLot) → List PaperPosition → Type 0
IsFresh found xs = All (λ x. get x.instrument_id found ≡ none) xs

before-name_key : (a b : String) → text_compare a b ≡ Ordering.lt → name_key.beq a b ≡ false
unfolding name_key
before-name_key a b before = rw (◌=s=◌, before) refl

IsFresh-put :
    (x : PaperPosition) (found : Dict String (List PaperPositionLot)) (xs : List PaperPosition)
    → IsFresh found xs
    → All (λ name. text_compare x.instrument_id name ≡ Ordering.lt) (map (λ y. y.instrument_id) xs)
    → IsFresh (put x.instrument_id x.lots found) xs
IsFresh-put x found [] fresh later = tt
IsFresh-put x found (y ∷ ys) (new, fresh) (before, later) = (
  get-put_ne y.instrument_id x.instrument_id x.lots found
        (before-name_key x.instrument_id y.instrument_id before)
      ∙ new,
  IsFresh-put x found ys fresh later,
)

fresh-shares :
    (id name : String) (found : Dict String (List PaperPositionLot))
    → get name found ≡ none
    → entry_shares id (name, lots_of name found) ≡ 0
fresh-shares id name found new = rw (lots_of, new) (ground arith)

pub position_lots-shares :
    ⦃h : Hashing⦄ ⦃p : Platform⦄ (id : String) (found : Dict String (List PaperPositionLot))
    (xs : List PaperPosition)
    → All IsPosition xs
    → All IsEntry found
    → IsStrict (map (λ x. x.instrument_id) xs)
    → IsFresh found xs
    → All IsEntry (position_lots found xs)
      × (ledger_shares id (position_lots found xs) ≡ ledger_shares id found + account_shares id xs)
unfolding position_lots
position_lots-shares id found [] positions entries strict fresh = (entries, omega arith)
position_lots-shares id found (x ∷ xs) ((made, lots), positions) entries (later, strict)
      (new, fresh) =
    let (quantity, stripped) = IsPosition-facts x made in
    let (entries', shares) =
      position_lots-shares id (put x.instrument_id x.lots found) xs positions
        (put-IsEntry x.instrument_id x.lots found lots stripped entries) strict
        (IsFresh-put x found xs fresh later) in
    let put_in = put-shares id x.instrument_id x.lots found in
    let absent = fresh-shares id x.instrument_id found new in
    let own : position_shares id x ≡ entry_shares id (x.instrument_id, x.lots) =
      ap (λ n. if x.instrument_id =s= id then n else 0) quantity in
    (entries', omega arith)
