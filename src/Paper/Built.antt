-- ===== src/Paper/Built.antt =====
-- The positions that a replay builds, and builds again with their holds, have the shares of the lots.
use mathlib.Core.Path.{subst}
use quant_agent.Prelude.{
  ℕ, ◌+◌, ◌≡◌, refl, sym, ap, ◌∙◌, String, not, List, [], ◌∷◌, map, all, All, if◌then◌else◌,
  total-sort_by, All-sort_by, sort_by, ok, ltb, ◌=s=◌, arith, bind-ok, passed-ok, checked-ok,
  ok_injective, strip, strip_idem, is_blank, is_blank-strip,
}
use quant_agent.Canonical.{Hashing}
use quant_agent.Dict.{Dict}
use quant_agent.Paper.Contracts.{
  TradableInstrumentType, value_error, types_conflict, type_beq, Platform, PaperPositionLot,
}
use quant_agent.Paper.Orders.{PaperOrder}
use quant_agent.Paper.Positions.{
  PaperPosition, are_distinct, valid_position, make_position, build_position, position_of,
  with_position_hash, id_leb,
}
use quant_agent.Paper.Accounts.{rebuild_positions, sell_hold}
use quant_agent.Paper.Transition.{build_positions}
use quant_agent.Paper.LotFacts.{IsLot}
use quant_agent.Paper.Ledger.{ledger_shares, entry_shares, quantity_of, IsEntry}
use quant_agent.Paper.Shares.{IsPosition, position_shares, account_shares, IsPosition-facts}

make_position_idem :
    ⦃h : Hashing⦄ ⦃p : Platform⦄ (given x : PaperPosition)
    → make_position given ≡ ok x
    → (make_position x ≡ ok x)
      × (x.lots ≡ given.lots)
      × (x.instrument_id ≡ strip given.instrument_id)
unfolding make_position
make_position_idem given x made =
    let normal : PaperPosition = record given { instrument_id = strip given.instrument_id } in
    let (named, rest) = passed-ok (is_blank given.instrument_id) value_error _ x made in
    let (valid, same) = checked-ok (not (valid_position normal)) value_error normal x rest in
    let again : make_position normal ≡ ok normal =
      rw (is_blank-strip given.instrument_id, named, strip_idem given.instrument_id, valid) refl in
    subst
      (λ y.
        (make_position y ≡ ok y)
        × (y.lots ≡ given.lots)
        × (y.instrument_id ≡ strip given.instrument_id))
      same (again, refl, refl)

no_shares : (id name : String) → entry_shares id (name, []) ≡ 0
no_shares id name = ground arith

module _ ⦃h : Hashing⦄ ⦃p : Platform⦄ where
  build_position-IsPosition :
      (as_of : ℕ) (name : String) (type : TradableInstrumentType) (ls : List PaperPositionLot)
      (reserved : ℕ) (x : PaperPosition)
      → All IsLot ls
      → build_position as_of name type ls reserved ≡ ok x
      → IsPosition x × (x.total_quantity ≡ quantity_of ls) × (x.instrument_id ≡ strip name)
  unfolding build_position position_of
  build_position-IsPosition as_of name type ls reserved x valid built =
      let ordered = sort_by id_leb ls in
      let whole = position_of as_of name type ordered reserved in
      let (_, rest) =
        passed-ok (not (are_distinct (map (λ l. l.lot_id) ordered))) value_error _ x built in
      let (_, checks) =
        passed-ok (ltb whole.total_quantity (whole.unsettled_quantity + whole.frozen_quantity))
          value_error _ x rest in
      let (made, lots, named) = make_position_idem (with_position_hash whole) x checks in
      let (quantity, _) = IsPosition-facts x made in
      (
        (made, subst (All IsLot) (sym lots) (All-sort_by id_leb IsLot ls valid)),
        quantity ∙ ap quantity_of lots ∙ total-sort_by id_leb (λ l. l.quantity) ls,
        named,
      )

  -- The shares of an instrument in a position that was built.
  built-shares :
      (id name : String) (ls : List PaperPositionLot) (x : PaperPosition)
      → x.total_quantity ≡ quantity_of ls
      → x.instrument_id ≡ name
      → position_shares id x ≡ entry_shares id (name, ls)
  built-shares id name ls x quantity named =
      ap (λ n. if x.instrument_id =s= id then n else 0) quantity
      ∙ ap (λ n. if n =s= id then quantity_of ls else 0) named

  pub build_positions-shares :
      (id : String) (as_of : ℕ) (d : Dict String (List PaperPositionLot)) (xs : List PaperPosition)
      → All IsEntry d
      → build_positions as_of d ≡ ok xs
      → All IsPosition xs × (account_shares id xs ≡ ledger_shares id d)
  unfolding build_positions
  build_positions-shares id as_of [] xs entries built =
      subst (λ ys. All IsPosition ys × (account_shares id ys ≡ 0)) (ok_injective [] xs built)
        (tt, refl)
  build_positions-shares id as_of ((name, []) ∷ d) xs (entry, entries) built =
      let (positions, shares) = build_positions-shares id as_of d xs entries built in
      (positions, omega (arith, no_shares id name))
  build_positions-shares id as_of ((name, l ∷ ls) ∷ d) xs ((lots, stripped), entries) built =
      let (_, rest) =
        passed-ok (not (all (λ k. type_beq k.instrument_type l.instrument_type) ls)) types_conflict
          _ xs built in
      let (x, first, more) =
        bind-ok (build_position as_of name l.instrument_type (l ∷ ls) 0) _ rest in
      let (ys, later, same) = bind-ok (build_positions as_of d) _ more in
      let (position, quantity, named) =
        build_position-IsPosition as_of name l.instrument_type (l ∷ ls) 0 x lots first in
      let (positions, shares) = build_positions-shares id as_of d ys entries later in
      let here = built-shares id name (l ∷ ls) x quantity (named ∙ stripped) in
      subst (λ r. All IsPosition r × (account_shares id r ≡ ledger_shares id ((name, l ∷ ls) ∷ d)))
        (ok_injective (x ∷ ys) xs same) ((position, positions), omega arith)

  -- A position that is built again has the shares that it had.
  pub rebuilt-shares :
      (id : String) (as_of reserved : ℕ) (x z : PaperPosition)
      → IsPosition x
      → build_position as_of x.instrument_id x.instrument_type x.lots reserved ≡ ok z
      → IsPosition z × (position_shares id z ≡ position_shares id x)
  rebuilt-shares id as_of reserved x z (made, lots) built =
      let (position, quantity, named) =
        build_position-IsPosition as_of x.instrument_id x.instrument_type x.lots reserved z lots
          built in
      let (total_quantity, stripped) = IsPosition-facts x made in
      (
        position,
        built-shares id x.instrument_id x.lots z quantity (named ∙ stripped)
            ∙ sym (built-shares id x.instrument_id x.lots x total_quantity refl),
      )

  pub rebuild_positions-shares :
      (id : String) (as_of : ℕ) (orders : List PaperOrder) (xs ys : List PaperPosition)
      → All IsPosition xs
      → rebuild_positions as_of orders xs ≡ ok ys
      → All IsPosition ys × (account_shares id ys ≡ account_shares id xs)
  unfolding rebuild_positions
  rebuild_positions-shares id as_of orders [] ys positions built =
      subst (λ r. All IsPosition r × (account_shares id r ≡ 0)) (ok_injective [] ys built)
        (tt, refl)
  rebuild_positions-shares id as_of orders (x ∷ xs) ys (position, positions) built =
      let reserved = sell_hold x.instrument_id orders in
      let (z, first, more) =
        bind-ok (build_position as_of x.instrument_id x.instrument_type x.lots reserved) _ built in
      let (zs, later, same) = bind-ok (rebuild_positions as_of orders xs) _ more in
      let (again, here) = rebuilt-shares id as_of reserved x z position first in
      let (rest, shares) = rebuild_positions-shares id as_of orders xs zs positions later in
      subst (λ r. All IsPosition r × (account_shares id r ≡ account_shares id (x ∷ xs)))
        (ok_injective (z ∷ zs) ys same) ((again, rest), omega arith)
